-- ===== src/Examples/Heartbeats.antt =====
-- node_heartbeat.py at concrete inputs: a store that has heard of one node.
use Prim.Native.String.{◌++◌ as str_append}
use cyber_hive.Prelude.{
  Bool-cases, string_eq, nat_eq, ◌==◌, ℕ, ◌≡◌, refl, ◌↔◌, inl, inr, true, false, none, [], ◌∷◌,
  arith,
}
use cyber_hive.Prelude.Dict.{get}
use cyber_hive.Plan.Metadata.{end}
use cyber_hive.Resource.{thousandths}
use cyber_hive.Channel.Envelope.{direction_eq, purpose_eq, aware}
use cyber_hive.Identity.{Hashes}
use cyber_hive.Heartbeat.Sample.{
  whole, finite_float, int_metric, Metrics, NodeHeartbeat, read_metrics, exceeds, check_metrics,
  validate_metrics, snapshot_of,
}
use cyber_hive.Heartbeat.Store.{
  HeartbeatStore, validate_identity, aware_instant, validate, recorded, acceptance, publish_fails,
  accept, moved_back, repeats, after_validation, ingest, Ingest, ingest_call, run,
}
use cyber_hive.Heartbeat.Sequences.{Newer, is_acceptance, Leaves, run-Leaves}
use cyber_hive.Heartbeat.Valid.{IsValid, is_acceptance-IsValid}
use cyber_hive.Heartbeat.Synced.{IsSynced, run-IsSynced}

abbrev toy_digests : Hashes
toy_digests = record {
  sha256_hex = λ s. str_append "h" s;
  sha256_digest = λ s. str_append "d" s;
  hmac_sha256_hex = λ key s. str_append key s;
}

abbrev edge_numbers : Metrics
edge_numbers = record {
  cpu_cores = 8000;
  free_cpu_cores = 6000;
  memory_gb = 16000;
  free_memory_gb = 9000;
  gpu_vram_gb = 0;
  free_vram_gb = 0;
  gpu_utilization = 100;
  queue_depth = 1;
  latency_ms = 2000;
}

abbrev beat_numbered : ℕ → NodeHeartbeat
beat_numbered n = record {
  node_id = "edge-1";
  sequence = n;
  session_id = none;
  observed_at = aware 5000000;
  capabilities = "cpu" ∷ [];
  labels = end;
  metrics = record {
    cpu_cores = thousandths 8000;
    free_cpu_cores = thousandths 6000;
    memory_gb = thousandths 16000;
    free_memory_gb = thousandths 9000;
    gpu_vram_gb = thousandths 0;
    free_vram_gb = thousandths 0;
    gpu_utilization = thousandths 100;
    queue_depth = whole 1;
    latency_ms = thousandths 2000;
  };
  data_locality = [];
  metadata = end;
  id = "hb_1";
}

abbrev hearing : HeartbeatStore
hearing = record {
  identity_registry = none;
  runtime_bus = none;
  stale_after_seconds = 30;
  expire_after_seconds = 120;
  max_future_skew_seconds = 5;
  require_session = false;
  heartbeats = ("edge-1", beat_numbered 3) ∷ [];
  snapshots = ("edge-1", snapshot_of (beat_numbered 3) edge_numbers 5000000 6000000) ∷ [];
  decisions = [];
}

abbrev heard : ℕ → Ingest
heard n = record {
  registry = none;
  heartbeat = beat_numbered n;
  session_token = none;
  now = 7000000;
  clock = 7000000;
}

hearing-IsSynced : IsSynced hearing
unfolding get snapshot_of read_metrics finite_float int_metric
hearing-IsSynced k = elim (Bool-cases ("edge-1" == k)) [
  | inl same ↦ rw same (record {
    own_node = (string_eq.beq_iff "edge-1" k).0 same;
    snapshot_node = (string_eq.beq_iff "edge-1" k).0 same;
    same_heartbeat = refl;
    same_sequence = refl;
    same_instant = refl;
    same_capabilities = refl;
    same_labels = refl;
    same_locality = refl;
    same_metadata = refl;
    numbers = edge_numbers;
    are_read = refl;
    capped = refl;
  })
  | inr other ↦ rw other tt
]

run-IsSynced_example : IsSynced (run toy_digests hearing (heard 4 ∷ heard 2 ∷ []))
run-IsSynced_example = run-IsSynced toy_digests hearing (heard 4 ∷ heard 2 ∷ []) hearing-IsSynced

run-Leaves_example :
    Leaves
      (run toy_digests hearing (heard 4 ∷ []))
      (ingest_call toy_digests (run toy_digests hearing (heard 4 ∷ [])) (heard 2))
unfolding get
run-Leaves_example =
    run-Leaves toy_digests hearing (heard 4 ∷ []) (beat_numbered 3) (heard 2) refl refl
      (omega arith)

is_acceptance-IsValid_example :
    is_acceptance (ingest toy_digests hearing (beat_numbered 4) none 7000000 7000000).1 ≡ true ↔ (
      (om : ℕ × Metrics) × IsValid toy_digests hearing (beat_numbered 4) none 7000000 7000000 om
      × Newer (get "edge-1" hearing.heartbeats) 4)
unfolding publish_fails
is_acceptance-IsValid_example =
    is_acceptance-IsValid toy_digests hearing (beat_numbered 4) none 7000000 7000000 (λ d. refl)

-- the sides of the equivalence hold for this heartbeat
beat-accepted :
    is_acceptance (ingest toy_digests hearing (beat_numbered 4) none 7000000 7000000).1 ≡ true
unfolding ingest after_validation validate aware_instant validate_metrics read_metrics finite_float
    int_metric check_metrics exceeds validate_identity moved_back repeats get accept acceptance
    publish_fails recorded
beat-accepted = refl
