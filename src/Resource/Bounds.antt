-- ===== src/Resource/Bounds.antt =====
-- resource_guard.py: no history of calls takes the active reservations past the budget.
use cyber_hive.Prelude.{
  Bool-cases, string_eq, nat_eq, ◌==◌, ℕ, ◌+◌, ◌≤◌, String, ◌≡◌, refl, inl, inr, Bool, true, false,
  Option, none, some, List, [], ◌∷◌, arith,
}
use cyber_hive.Prelude.Dict.{Dict, put, pop}
use cyber_hive.Resource.Guard.{
  LocalResourceGuard, total, usage, denial, grant, decide_reservation, reserve, finish_release,
  release, Call, reserves, releases, step, run,
}
use cyber_hive.Resource.{ResourceRequest, ResourceReservation}

total-put-le :
    (field : ResourceRequest → ℕ) (k : String) (r : ResourceReservation)
    (d : Dict String ResourceReservation)
    → total field (put k r d) ≤ total field d + field r.request
unfolding total put
total-put-le field k r [] = omega arith
total-put-le field k r ((j, s) ∷ d) = ground (arith, total-put-le field k r d)

total-pop-le :
    (field : ResourceRequest → ℕ) (k : String) (d : Dict String ResourceReservation)
    → total field (pop k d) ≤ total field d
unfolding total pop
total-pop-le field k [] = omega arith
total-pop-le field k ((j, s) ∷ d) = ground (arith, total-pop-le field k d)

-- What is active fits the budget, in each of the five dimensions.
pub record WithinBudget (g : LocalResourceGuard) : Type 0 where
  pub slots : total (λ q. q.concurrency_slots) g.active ≤ g.budget.max_concurrent
  pub cpu : total (λ q. q.cpu_units) g.active ≤ g.budget.cpu_units
  pub memory : total (λ q. q.memory_mb) g.active ≤ g.budget.memory_mb
  pub vram : total (λ q. q.vram_mb) g.active ≤ g.budget.vram_mb
  pub io : total (λ q. q.io_weight) g.active ≤ g.budget.io_weight

-- The request fits beside what is active.
pub record Fits (g : LocalResourceGuard) (q : ResourceRequest) : Type 0 where
  pub slots :
      total (λ q. q.concurrency_slots) g.active + q.concurrency_slots ≤ g.budget.max_concurrent
  pub cpu : total (λ q. q.cpu_units) g.active + q.cpu_units ≤ g.budget.cpu_units
  pub memory : total (λ q. q.memory_mb) g.active + q.memory_mb ≤ g.budget.memory_mb
  pub vram : total (λ q. q.vram_mb) g.active + q.vram_mb ≤ g.budget.vram_mb
  pub io : total (λ q. q.io_weight) g.active + q.io_weight ≤ g.budget.io_weight

pub denial-Fits : (g : LocalResourceGuard) (q : ResourceRequest) → denial g q ≡ none → Fits g q
unfolding denial usage
denial-Fits g q h = ground arith

pub Fits-denial : (g : LocalResourceGuard) (q : ResourceRequest) → Fits g q → denial g q ≡ none
unfolding denial usage
Fits-denial g q h = ground arith

decide_reservation-WithinBudget :
    (g : LocalResourceGuard) (action : String) (q : ResourceRequest) (dry : Bool) (id : String)
    (now : ℕ) (o : Option String)
    → denial g q ≡ o
    → WithinBudget g
    → WithinBudget (decide_reservation g action q dry id now o).0
unfolding decide_reservation
decide_reservation-WithinBudget g action q dry id now (some why) e w = record {
  slots = w.slots;
  cpu = w.cpu;
  memory = w.memory;
  vram = w.vram;
  io = w.io;
}
decide_reservation-WithinBudget g action q true id now none e w = record {
  slots = w.slots;
  cpu = w.cpu;
  memory = w.memory;
  vram = w.vram;
  io = w.io;
}
decide_reservation-WithinBudget g action q false id now none e w =
    let f = denial-Fits g q e in
    let r = grant g action q false id now in
    unfold grant in
    record {
      slots = omega (arith, f.slots, total-put-le (λ q. q.concurrency_slots) r.id r g.active);
      cpu = omega (arith, f.cpu, total-put-le (λ q. q.cpu_units) r.id r g.active);
      memory = omega (arith, f.memory, total-put-le (λ q. q.memory_mb) r.id r g.active);
      vram = omega (arith, f.vram, total-put-le (λ q. q.vram_mb) r.id r g.active);
      io = omega (arith, f.io, total-put-le (λ q. q.io_weight) r.id r g.active);
    }

reserve-WithinBudget :
    (g : LocalResourceGuard) (action : String) (q : Option ResourceRequest) (dry : Bool)
    (id : String) (now : ℕ)
    → WithinBudget g
    → WithinBudget (reserve g action q dry id now).0
unfolding reserve
reserve-WithinBudget g action q dry id now w = elim (Bool-cases (action == "")) [
  | inl e ↦ rw e w
  | inr e ↦ rw e (decide_reservation-WithinBudget g action _ dry id now _ refl w)
]

finish_release-WithinBudget :
    (g : LocalResourceGuard) (id why : String) (now : ℕ) (o : Option ResourceReservation)
    → WithinBudget g
    → WithinBudget (finish_release g id why now o).0
unfolding finish_release
finish_release-WithinBudget g id why now none w = w
finish_release-WithinBudget g id why now (some r) w = record {
  slots = omega (arith, w.slots, total-pop-le (λ q. q.concurrency_slots) id g.active);
  cpu = omega (arith, w.cpu, total-pop-le (λ q. q.cpu_units) id g.active);
  memory = omega (arith, w.memory, total-pop-le (λ q. q.memory_mb) id g.active);
  vram = omega (arith, w.vram, total-pop-le (λ q. q.vram_mb) id g.active);
  io = omega (arith, w.io, total-pop-le (λ q. q.io_weight) id g.active);
}

step-WithinBudget : (g : LocalResourceGuard) (c : Call) → WithinBudget g → WithinBudget (step g c)
unfolding step release
step-WithinBudget g (reserves action q dry id now) w = reserve-WithinBudget g action q dry id now w
step-WithinBudget g (releases id why now) w = finish_release-WithinBudget g id why now _ w

-- From a guard whose active reservations fit its budget in slots, CPU, memory, VRAM and IO, every
-- history of `reserve` and `release` calls, failing or not and with any identifiers, ends in one.
pub run-WithinBudget :
    (g : LocalResourceGuard) (cs : List Call) → WithinBudget g → WithinBudget (run g cs)
unfolding run
run-WithinBudget g [] w = w
run-WithinBudget g (c ∷ cs) w = run-WithinBudget (step g c) cs (step-WithinBudget g c w)
