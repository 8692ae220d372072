-- ===== src/Resource.antt =====
-- resource_guard.py: budgets, requests and reservations.
-- A quantity that the code holds as a float is a number of thousandths here; `Raw` is what a
-- caller may pass where the code converts with `float(value)` and checks the result.
pub mod Guard
pub mod Bounds
pub mod Replies
use cyber_hive.Prelude.{
  ltb, if◌then◌else◌, is_some, string_eq, nat_eq, ◌==◌, Result, ok, raise, ◌>>=◌, ◌>>◌, ℕ, String,
  Bool, true, false, not, Option, some,
}

pub data Raw : Type 0 where
  not_numeric not_finite negative : Raw
  thousandths : ℕ → Raw

-- the messages of `ResourceGuardError`
pub data ResourceGuardError : Type 0 where
  must_be_numeric must_be_finite must_be_at_least : String → ResourceGuardError
  max_concurrent_at_least_1 concurrency_slots_at_least_1 : ResourceGuardError
  node_id_required action_required reservation_not_found : ResourceGuardError

unfoldable pub finite : Raw → String → Result ResourceGuardError ℕ
finite not_numeric name = raise (must_be_numeric name)
finite not_finite name = raise (must_be_finite name)
finite negative name = raise (must_be_at_least name)
finite (thousandths n) name = ok n

pub data ReservationStatus : Type 0 where
  granted denied released dry_run : ReservationStatus

pub record ResourceBudget : Type 0 where
  pub cpu_units : ℕ
  pub memory_mb : ℕ
  pub vram_mb : ℕ
  pub io_weight : ℕ
  pub max_concurrent : ℕ

pub record ResourceRequest : Type 0 where
  pub cpu_units : ℕ
  pub memory_mb : ℕ
  pub vram_mb : ℕ
  pub io_weight : ℕ
  pub concurrency_slots : ℕ

unfoldable pub new_budget : Raw → Raw → Raw → Raw → ℕ → Result ResourceGuardError ResourceBudget
unfolding finite
new_budget cpu memory vram io slots = do
  c ← finite cpu "cpu_units"
  m ← finite memory "memory_mb"
  v ← finite vram "vram_mb"
  i ← finite io "io_weight"
  if ltb slots 1
      then raise max_concurrent_at_least_1
      else ok (record {
        cpu_units = c;
        memory_mb = m;
        vram_mb = v;
        io_weight = i;
        max_concurrent = slots;
      })

unfoldable pub new_request : Raw → Raw → Raw → Raw → ℕ → Result ResourceGuardError ResourceRequest
unfolding finite
new_request cpu memory vram io slots = do
  c ← finite cpu "cpu_units"
  m ← finite memory "memory_mb"
  v ← finite vram "vram_mb"
  i ← finite io "io_weight"
  if ltb slots 1
      then raise concurrency_slots_at_least_1
      else ok (record {
        cpu_units = c;
        memory_mb = m;
        vram_mb = v;
        io_weight = i;
        concurrency_slots = slots;
      })

-- the defaults of the two dataclasses
abbrev pub default_budget : ResourceBudget
default_budget = record {
  cpu_units = 1000;
  memory_mb = 1024000;
  vram_mb = 0;
  io_weight = 1000;
  max_concurrent = 1;
}

abbrev pub default_request : ResourceRequest
default_request = record {
  cpu_units = 100;
  memory_mb = 64000;
  vram_mb = 0;
  io_weight = 100;
  concurrency_slots = 1;
}

unfoldable pub default_request_for_action : String → ResourceRequest
default_request_for_action action =
    if action == "prewarm_model"
    then record default_request {
      cpu_units = 200;
      memory_mb = 256000;
      vram_mb = 512000;
      io_weight = 200;
    }
    else if action == "data_move"
    then record default_request { memory_mb = 128000; io_weight = 600 }
    else if action == "cache_prime"
    then record default_request { memory_mb = 128000; io_weight = 400 }
    else default_request

pub record ResourceReservation : Type 0 where
  pub node_id : String
  pub action : String
  pub request : ResourceRequest
  pub status : ReservationStatus
  pub reason : String
  pub is_dry_run : Bool
  pub created_at : ℕ
  pub released_at : Option ℕ
  pub id : String

unfoldable pub is_granted : ResourceReservation → Bool
is_granted r = elim r.status [ granted ↦ true | dry_run ↦ true | _ ↦ false ]

unfoldable pub is_active : ResourceReservation → Bool
is_active r = elim r.status [ granted ↦ not (is_some r.released_at) | _ ↦ false ]

unfoldable pub as_released : ResourceReservation → String → ℕ → ResourceReservation
as_released r why now = record r { status = released; reason = why; released_at = some now }
