-- ===== src/Heartbeat/Synced.antt =====
-- node_heartbeat.py: the snapshots against the heartbeats.
use mathlib.Core.Path.{subst}
use Prim.Native.Nat.{min}
use cyber_hive.Prelude.{
  Bool-cases, string_eq, nat_eq, ◌==◌, ok, ℕ, String, ◌≡◌, refl, inl, inr, Option, none, some, List,
  [], ◌∷◌,
}
use cyber_hive.Prelude.Dict.{Dict, get, put, get-put}
use cyber_hive.Channel.Envelope.{direction_eq, purpose_eq, aware}
use cyber_hive.Heartbeat.Sample.{
  Metrics, NodeHeartbeat, read_metrics, CapabilitySnapshot, snapshot_of,
}
use cyber_hive.Heartbeat.Store.{HeartbeatStore, Ingest, ingest_call, run}
use cyber_hive.Heartbeat.Sequences.{ingest-effect}
use cyber_hive.Heartbeat.Valid.{validate-IsValid}
use cyber_hive.Identity.{Hashes}

-- The heartbeat is of this node and the snapshot says what it says: its numbers are those of the
-- heartbeat, with the utilization capped at 1.
pub record IsTakenFrom (k : String) (hb : NodeHeartbeat) (snap : CapabilitySnapshot) : Type 0 where
  pub own_node : hb.node_id ≡ k
  pub snapshot_node : snap.node_id ≡ k
  pub same_heartbeat : snap.heartbeat_id ≡ hb.id
  pub same_sequence : snap.sequence ≡ hb.sequence
  pub same_instant : hb.observed_at ≡ aware snap.observed_at
  pub same_capabilities : snap.capabilities ≡ hb.capabilities
  pub same_labels : snap.labels ≡ hb.labels
  pub same_locality : snap.data_locality ≡ hb.data_locality
  pub same_metadata : snap.metadata ≡ hb.metadata
  pub numbers : Metrics
  pub are_read : read_metrics hb.metrics ≡ ok numbers
  pub capped : snap.metrics ≡ record numbers { gpu_utilization = min 1000 numbers.gpu_utilization }

-- What the store knows of a node: nothing, or a heartbeat of it with the snapshot taken from it.

abbrev pub Known : String → Option NodeHeartbeat → Option CapabilitySnapshot → Type 0
Known k none none = Unit
Known k (some hb) (some snap) = IsTakenFrom k hb snap
Known k _ _ = ⊥

abbrev pub IsSynced : HeartbeatStore → Type 0
IsSynced st = (k : String) → Known k (get k st.heartbeats) (get k st.snapshots)

taken :
    (hb : NodeHeartbeat) (m : Metrics) (observed now : ℕ)
    → hb.observed_at ≡ aware observed
    → read_metrics hb.metrics ≡ ok m
    → IsTakenFrom hb.node_id hb (snapshot_of hb m observed now)
unfolding snapshot_of
taken hb m observed now e n = record {
  own_node = refl;
  snapshot_node = refl;
  same_heartbeat = refl;
  same_sequence = refl;
  same_instant = e;
  same_capabilities = refl;
  same_labels = refl;
  same_locality = refl;
  same_metadata = refl;
  numbers = m;
  are_read = n;
  capped = refl;
}

IsSynced-put :
    (heartbeats : Dict String NodeHeartbeat) (snapshots : Dict String CapabilitySnapshot)
    (hb : NodeHeartbeat) (snap : CapabilitySnapshot)
    → IsTakenFrom hb.node_id hb snap
    → ((k : String) → Known k (get k heartbeats) (get k snapshots))
    → (k : String)
    → Known k (get k (put hb.node_id hb heartbeats)) (get k (put hb.node_id snap snapshots))
IsSynced-put heartbeats snapshots hb snap new old k = elim (Bool-cases (hb.node_id == k)) [
  | inr other ↦
      rw (get-put hb.node_id k hb heartbeats, get-put hb.node_id k snap snapshots, other) (old k)
  | inl same ↦
      rw (get-put hb.node_id k hb heartbeats, get-put hb.node_id k snap snapshots, same)
        (subst (λ i. IsTakenFrom i hb snap) ((string_eq.beq_iff hb.node_id k).0 same) new)
]

module _ (h : Hashes) where
  IsSynced-ingest_call :
      (st : HeartbeatStore) (c : Ingest) → IsSynced st → IsSynced (ingest_call h st c).0
  unfolding ingest_call
  IsSynced-ingest_call st c s =
      let st' = record st { identity_registry = c.registry } in
      let hb = c.heartbeat in
      elim (ingest-effect h st' hb c.session_token c.now c.clock) [
        | inl same ↦ λ k. rw (same.heartbeats_same, same.snapshots_same) (s k)
        | inr (om, v, takes) ↦ λ k.
            rw (takes.heartbeat, takes.snapshot)
              (IsSynced-put st.heartbeats st.snapshots hb (snapshot_of hb om.1 om.0 c.now)
                (let valid = validate-IsValid h st' hb c.session_token c.now c.clock om v in
                  taken hb om.1 om.0 c.now valid.has_zone valid.are_numbers)
                s k)
      ]

  -- Start from a store that knows, of each node, nothing or a heartbeat of it with the snapshot taken from
  -- that very heartbeat: the same id, sequence, instant, capabilities, labels, locality and metadata, and
  -- the same numbers but for the utilization, which is capped at 1. After any calls of `ingest` the store
  -- is such a store, also where heartbeats were refused or the bus raised.
  pub run-IsSynced : (st : HeartbeatStore) (cs : List Ingest) → IsSynced st → IsSynced (run h st cs)
  unfolding run
  run-IsSynced st [] s = s
  run-IsSynced st (c ∷ cs) s = run-IsSynced (ingest_call h st c).0 cs (IsSynced-ingest_call st c s)
