-- ===== src/Resource/Guard.antt =====
-- resource_guard.py: LocalResourceGuard, with a history of calls.
use cyber_hive.Prelude.{
  ltb, if◌then◌else◌, string_eq, nat_eq, ◌==◌, Result, ok, raise, ℕ, ◌+◌, String, Bool, Option,
  none, some, List, [], ◌∷◌, ◌++◌, map,
}
use cyber_hive.Prelude.Dict.{Dict, get, put, pop}
use cyber_hive.Resource.{
  ResourceGuardError, node_id_required, action_required, reservation_not_found, granted, denied,
  dry_run, ResourceBudget, ResourceRequest, default_budget, default_request_for_action,
  ResourceReservation, as_released,
}

pub record LocalResourceGuard : Type 0 where
  pub node_id : String
  pub budget : ResourceBudget
  pub active : Dict String ResourceReservation
  pub journal : List ResourceReservation

unfoldable pub new_guard :
    String → Option ResourceBudget → Result ResourceGuardError LocalResourceGuard
new_guard node_id budget =
    if node_id == ""
    then raise node_id_required
    else ok (record {
      node_id = node_id;
      budget = elim budget [ none ↦ default_budget | some b ↦ b ];
      active = [];
      journal = [];
    })

-- `sum(item.request.field for item in self._active.values())`
unfoldable pub total : (ResourceRequest → ℕ) → Dict String ResourceReservation → ℕ
total field [] = 0
total field ((k, r) ∷ rest) = field r.request + total field rest

-- the five sums, with `or 1` behind the last one
unfoldable pub usage : LocalResourceGuard → ResourceRequest
unfolding total
usage g =
    let slots = total (λ q. q.concurrency_slots) g.active in
    record {
      cpu_units = total (λ q. q.cpu_units) g.active;
      memory_mb = total (λ q. q.memory_mb) g.active;
      vram_mb = total (λ q. q.vram_mb) g.active;
      io_weight = total (λ q. q.io_weight) g.active;
      concurrency_slots = if slots == 0 then 1 else slots;
    }

unfoldable pub denial : LocalResourceGuard → ResourceRequest → Option String
unfolding usage
denial g request =
    let current = usage g in
    let active_slots = total (λ q. q.concurrency_slots) g.active in
    if ltb g.budget.max_concurrent (active_slots + request.concurrency_slots)
    then some "concurrency budget exceeded"
    else if ltb g.budget.cpu_units (current.cpu_units + request.cpu_units)
    then some "cpu budget exceeded"
    else if ltb g.budget.memory_mb (current.memory_mb + request.memory_mb)
    then some "memory budget exceeded"
    else if ltb g.budget.vram_mb (current.vram_mb + request.vram_mb)
    then some "vram budget exceeded"
    else if ltb g.budget.io_weight (current.io_weight + request.io_weight)
    then some "io budget exceeded"
    else none

-- `request or default_request_for_action(action)`
unfoldable pub request_or_default : Option ResourceRequest → String → ResourceRequest
unfolding default_request_for_action
request_or_default none action = default_request_for_action action
request_or_default (some request) action = request

-- The two dataclass calls of `reserve`; `id` is the fresh identifier and `now` the clock.
unfoldable pub refusal :
    LocalResourceGuard → String → ResourceRequest → Bool → String → String → ℕ → ResourceReservation
refusal g action request dry why id now = record {
  node_id = g.node_id;
  action = action;
  request = request;
  status = denied;
  reason = why;
  is_dry_run = dry;
  created_at = now;
  released_at = none;
  id = id;
}

unfoldable pub grant :
    LocalResourceGuard → String → ResourceRequest → Bool → String → ℕ → ResourceReservation
grant g action request dry id now = record {
  node_id = g.node_id;
  action = action;
  request = request;
  status = if dry then dry_run else granted;
  reason = if dry then "dry-run resource preflight passed" else "resource reservation granted";
  is_dry_run = dry;
  created_at = now;
  released_at = none;
  id = id;
}

abbrev pub Reply : Type 0
Reply = Result ResourceGuardError ResourceReservation

unfoldable pub decide_reservation :
    LocalResourceGuard
    → String
    → ResourceRequest
    → Bool
    → String
    → ℕ
    → Option String
    → LocalResourceGuard × Reply
unfolding refusal grant
decide_reservation g action request dry id now (some why) =
    let r = refusal g action request dry why id now in
    (record g { journal = g.journal ++ r ∷ [] }, ok r)
decide_reservation g action request dry id now none =
    let r = grant g action request dry id now in
    (
      record g {
        active = if dry then g.active else put r.id r g.active;
        journal = g.journal ++ r ∷ [];
      },
      ok r,
    )

unfoldable pub reserve :
    LocalResourceGuard
    → String
    → Option ResourceRequest
    → Bool
    → String
    → ℕ
    → LocalResourceGuard × Reply
unfolding decide_reservation request_or_default
reserve g action request dry id now =
    if action == ""
    then (g, raise action_required)
    else let wanted = request_or_default request action in
      decide_reservation g action wanted dry id now (denial g wanted)

unfoldable pub finish_release :
    LocalResourceGuard
    → String
    → String
    → ℕ
    → Option ResourceReservation
    → LocalResourceGuard × Reply
unfolding as_released
finish_release g id why now none = (g, raise reservation_not_found)
finish_release g id why now (some r) =
    let done = as_released r why now in
    (record g { active = pop id g.active; journal = g.journal ++ done ∷ [] }, ok done)

unfoldable pub release : LocalResourceGuard → String → String → ℕ → LocalResourceGuard × Reply
unfolding finish_release
release g id why now = finish_release g id why now (get id g.active)

unfoldable pub active_reservations : LocalResourceGuard → List ResourceReservation
active_reservations g = map (λ p. p.1) g.active

-- One call on the guard, and a history of calls.
pub data Call : Type 0 where
  reserves : String → Option ResourceRequest → Bool → String → ℕ → Call
  releases : String → String → ℕ → Call

unfoldable pub step : LocalResourceGuard → Call → LocalResourceGuard
step g (reserves action request dry id now) = (reserve g action request dry id now).0
step g (releases id why now) = (release g id why now).0

unfoldable pub run : LocalResourceGuard → List Call → LocalResourceGuard
run g [] = g
run g (c ∷ cs) = run (step g c) cs
