-- ===== src/Heartbeat/Sample.antt =====
-- node_heartbeat.py: a heartbeat, the tests of its numbers, and the snapshot that is taken from it.
use Prim.Native.Nat.{min}
use cyber_hive.Prelude.{
  ltb, leb, if◌then◌else◌, string_eq, nat_eq, is_nil, Result, ok, raise, ◌>>=◌, ◌>>◌, raise_if, ℕ,
  ◌-◌, ◌*◌, String, Bool, true, false, ◌&&◌, ◌||◌, Option, some, List, [], ◌∷◌, ◌++◌,
}
use cyber_hive.Plan.Metadata.{Fields}
use cyber_hive.Resource.{Raw, not_numeric, not_finite, negative, thousandths}
use cyber_hive.Channel.Envelope.{direction_eq, purpose_eq, Stamp}
use cyber_hive.Identity.{TrustState}

pub data HeartbeatStatus : Type 0 where
  accepted duplicate denied invalid : HeartbeatStatus

pub data LivenessStatus : Type 0 where
  healthy degraded stale expired unknown : LivenessStatus

pub data NodeHeartbeatError : Type 0 where
  not_a_number not_finite_number below_minimum not_an_integer : String → NodeHeartbeatError
  node_id_empty observed_at_naive too_far_in_future : NodeHeartbeatError
  free_cpu_exceeds free_memory_exceeds free_vram_exceeds : NodeHeartbeatError
  identity_unknown session_id_empty session_token_empty session_refused : NodeHeartbeatError
  identity_not_enrolled : TrustState → NodeHeartbeatError
  stale_not_positive expire_not_greater : NodeHeartbeatError
  snapshot_unknown : String → NodeHeartbeatError

-- An argument for a whole number. An infinite float, of which `int` raises an exception that is not
-- caught, is none.
pub data RawInteger : Type 0 where
  not_integer negative_integer : RawInteger
  whole : ℕ → RawInteger

-- `_finite_float` with the minimum 0
unfoldable pub finite_float : Raw → String → Result NodeHeartbeatError ℕ
finite_float not_numeric name = raise (not_a_number name)
finite_float not_finite name = raise (not_finite_number name)
finite_float negative name = raise (below_minimum name)
finite_float (thousandths n) name = ok n

unfoldable pub int_metric : RawInteger → String → Result NodeHeartbeatError ℕ
int_metric not_integer name = raise (not_an_integer name)
int_metric negative_integer name = raise (below_minimum name)
int_metric (whole n) name = ok n

-- the numbers of a heartbeat, as they are given and as they are
pub record RawMetrics : Type 0 where
  pub cpu_cores : Raw
  pub free_cpu_cores : Raw
  pub memory_gb : Raw
  pub free_memory_gb : Raw
  pub gpu_vram_gb : Raw
  pub free_vram_gb : Raw
  pub gpu_utilization : Raw
  pub queue_depth : RawInteger
  pub latency_ms : Raw

pub record Metrics : Type 0 where
  pub cpu_cores : ℕ
  pub free_cpu_cores : ℕ
  pub memory_gb : ℕ
  pub free_memory_gb : ℕ
  pub gpu_vram_gb : ℕ
  pub free_vram_gb : ℕ
  pub gpu_utilization : ℕ
  pub queue_depth : ℕ
  pub latency_ms : ℕ

pub record NodeHeartbeat : Type 0 where
  pub node_id : String
  pub sequence : ℕ
  pub session_id : Option String
  pub observed_at : Stamp
  pub capabilities : List String
  pub labels : Fields
  pub metrics : RawMetrics
  pub data_locality : List String
  pub metadata : Fields
  pub id : String

-- The first part of `_validate_metrics`. The order of the tests is that of the code.
unfoldable pub read_metrics : RawMetrics → Result NodeHeartbeatError Metrics
unfolding finite_float int_metric
read_metrics m = do
  cpu ← finite_float m.cpu_cores "cpu_cores"
  free_cpu ← finite_float m.free_cpu_cores "free_cpu_cores"
  memory ← finite_float m.memory_gb "memory_gb"
  free_memory ← finite_float m.free_memory_gb "free_memory_gb"
  vram ← finite_float m.gpu_vram_gb "gpu_vram_gb"
  free_vram ← finite_float m.free_vram_gb "free_vram_gb"
  utilization ← finite_float m.gpu_utilization "gpu_utilization"
  latency ← finite_float m.latency_ms "latency_ms"
  depth ← int_metric m.queue_depth "queue_depth"
  ok (record {
    cpu_cores = cpu;
    free_cpu_cores = free_cpu;
    memory_gb = memory;
    free_memory_gb = free_memory;
    gpu_vram_gb = vram;
    free_vram_gb = free_vram;
    gpu_utilization = utilization;
    queue_depth = depth;
    latency_ms = latency;
  })

-- More is free than there is, where it is known how much there is. The code compares the values as they
-- are given, which for numbers are these.
unfoldable pub exceeds : ℕ → ℕ → Bool
exceeds free total = ltb total free && ltb 0 total

unfoldable pub check_metrics : Metrics → Result NodeHeartbeatError Metrics
unfolding exceeds
check_metrics m = do
  raise_if (exceeds m.free_cpu_cores m.cpu_cores) free_cpu_exceeds
  raise_if (exceeds m.free_memory_gb m.memory_gb) free_memory_exceeds
  raise_if (exceeds m.free_vram_gb m.gpu_vram_gb) free_vram_exceeds
  ok m

-- `_validate_metrics`, which answers the numbers that the values are
unfoldable pub validate_metrics : RawMetrics → Result NodeHeartbeatError Metrics
unfolding read_metrics check_metrics
validate_metrics raw = do m ← read_metrics raw; check_metrics m

unfoldable pub heartbeat_findings : List String → Metrics → List String
heartbeat_findings capabilities m =
    (if is_nil capabilities then "heartbeat declares no capabilities" ∷ [] else [])
    ++ ((if leb 950 m.gpu_utilization then "gpu utilization is near saturation" ∷ [] else [])
        ++ (if leb 20 m.queue_depth then "queue depth is high" ∷ [] else []))

pub record CapabilitySnapshot : Type 0 where
  pub node_id : String
  pub heartbeat_id : String
  pub sequence : ℕ
  pub capabilities : List String
  pub labels : Fields
  pub metrics : Metrics
  pub data_locality : List String
  pub observed_at : ℕ
  pub updated_at : ℕ
  pub metadata : Fields

pub record NodeLiveness : Type 0 where
  pub node_id : String
  pub status : LivenessStatus
  pub is_healthy : Bool
  pub reason : String
  pub age : ℕ
  pub last_sequence : Option ℕ
  pub last_seen_at : Option ℕ
  pub evaluated_at : ℕ

abbrev pub second : ℕ
second = 1000000

-- the snapshot of a heartbeat with these numbers, observed at this instant
unfoldable pub snapshot_of : NodeHeartbeat → Metrics → ℕ → ℕ → CapabilitySnapshot
snapshot_of hb m observed now = record {
  node_id = hb.node_id;
  heartbeat_id = hb.id;
  sequence = hb.sequence;
  capabilities = hb.capabilities;
  labels = hb.labels;
  metrics = record m { gpu_utilization = min 1000 m.gpu_utilization };
  data_locality = hb.data_locality;
  observed_at = observed;
  updated_at = now;
  metadata = hb.metadata;
}

-- `_age_seconds`, which is 0 for an observation in the future
unfoldable pub age_of : CapabilitySnapshot → ℕ → ℕ
age_of snap now = now - snap.observed_at

-- the status, whether it is healthy, and the reason
unfoldable pub judge : CapabilitySnapshot → ℕ → ℕ → ℕ → LivenessStatus × Bool × String
unfolding age_of
judge snap stale_after expire_after now =
    if leb (second * expire_after) (age_of snap now)
    then (expired, false, "heartbeat expired")
    else if leb (second * stale_after) (age_of snap now)
    then (stale, false, "heartbeat stale")
    else if leb 950 snap.metrics.gpu_utilization || leb 20 snap.metrics.queue_depth
    then (degraded, true, "node is alive but under pressure")
    else (healthy, true, "heartbeat fresh")

-- `CapabilitySnapshot.liveness`
unfoldable pub liveness_of : CapabilitySnapshot → ℕ → ℕ → ℕ → NodeLiveness
unfolding judge age_of
liveness_of snap stale_after expire_after now =
    let (status, well, reason) = judge snap stale_after expire_after now in
    record {
      node_id = snap.node_id;
      status = status;
      is_healthy = well;
      reason = reason;
      age = age_of snap now;
      last_sequence = some snap.sequence;
      last_seen_at = some snap.observed_at;
      evaluated_at = now;
    }

-- the text of a reason, or the `str` of an exception
pub data Reason : Type 0 where
  stated : String → Reason
  raised : NodeHeartbeatError → Reason

pub record HeartbeatDecision : Type 0 where
  pub status : HeartbeatStatus
  pub node_id : String
  pub heartbeat_id : Option String
  pub reason : Reason
  pub snapshot : Option CapabilitySnapshot
  pub liveness : Option NodeLiveness
  pub findings : List String
  pub decided_at : ℕ

-- `HeartbeatDecision.accepted`
unfoldable pub is_accepted : HeartbeatDecision → Bool
is_accepted d = elim d.status [
  | accepted ↦ true
  | duplicate ↦ true
  | denied ↦ false
  | invalid ↦ false
]
