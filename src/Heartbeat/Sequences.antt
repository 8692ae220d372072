-- ===== src/Heartbeat/Sequences.antt =====
-- node_heartbeat.py: the heartbeats that `ingest` stores, and the sequences of those it has stored.
use mathlib.Core.Path.{subst}
use cyber_hive.Prelude.{
  Bool-cases, string_eq, nat_eq, ◌==◌, Result, ok, raise, Result-cases, ℕ, ◌≤◌, ◌<◌, String, ◌≡◌,
  refl, sym, ◌⊎◌, inl, inr, Bool, true, false, Option, none, some, List, [], ◌∷◌, arith,
}
use cyber_hive.Prelude.Dict.{Dict, get, put, get-put}
use cyber_hive.Channel.Envelope.{direction_eq, purpose_eq}
use cyber_hive.Heartbeat.Sample.{accepted, Metrics, NodeHeartbeat, snapshot_of, HeartbeatDecision}
use cyber_hive.Heartbeat.Store.{
  BusFailure, HeartbeatStore, Reply, validate, recorded, refusal, repetition, accept, moved_back,
  repeats, after_validation, ingest, Ingest, ingest_call, run,
}
use cyber_hive.Identity.{Hashes}

le_refl : (n : ℕ) → n ≤ n
le_refl n = omega arith

-- the sequence is greater than that of the last heartbeat, if there is one
abbrev pub Newer : Option NodeHeartbeat → ℕ → Type 0
Newer none n = Unit
Newer (some previous) n = previous.sequence < n

abbrev pub is_acceptance : Result BusFailure HeartbeatDecision → Bool
is_acceptance (raise e) = false
is_acceptance (ok d) = elim d.status [ accepted ↦ true | _ ↦ false ]

-- The heartbeat and its snapshot are stored under the node, and nothing else is.
pub record Takes (st : HeartbeatStore) (hb : NodeHeartbeat) (observed : ℕ) (m : Metrics) (now : ℕ)
    (reply : Reply) : Type 0 where
  pub newer : Newer (get hb.node_id st.heartbeats) hb.sequence
  pub heartbeat : reply.0.heartbeats ≡ put hb.node_id hb st.heartbeats
  pub snapshot : reply.0.snapshots ≡ put hb.node_id (snapshot_of hb m observed now) st.snapshots

-- Nothing is stored, and the answer accepts nothing new.
pub record Leaves (st : HeartbeatStore) (reply : Reply) : Type 0 where
  pub heartbeats_same : reply.0.heartbeats ≡ st.heartbeats
  pub snapshots_same : reply.0.snapshots ≡ st.snapshots
  pub not_new : is_acceptance reply.1 ≡ false

sequence-Newer :
    (previous : Option NodeHeartbeat) (n : ℕ)
    → moved_back previous n ≡ false
    → repeats previous n ≡ false
    → Newer previous n
unfolding moved_back repeats
sequence-Newer none n b r = tt
sequence-Newer (some previous) n b r = ground arith

pub Newer-passes :
    (previous : Option NodeHeartbeat) (n : ℕ)
    → Newer previous n
    → (moved_back previous n ≡ false) × (repeats previous n ≡ false)
unfolding moved_back repeats
Newer-passes none n h = (refl, refl)
Newer-passes (some previous) n h = (ground arith, ground arith)

accept-Takes :
    (st : HeartbeatStore) (hb : NodeHeartbeat) (observed : ℕ) (m : Metrics) (now : ℕ)
    → Newer (get hb.node_id st.heartbeats) hb.sequence
    → Takes st hb observed m now (accept st hb observed m now)
unfolding accept recorded
accept-Takes st hb observed m now n = record {
  newer = n;
  heartbeat = ground arith;
  snapshot = ground arith;
}

pub ingest-effect :
    (h : Hashes) (st : HeartbeatStore) (hb : NodeHeartbeat) (token : Option String) (now clock : ℕ)
    → Leaves st (ingest h st hb token now clock)
      ⊎ ((om : ℕ × Metrics) × (validate h st hb token now clock ≡ ok om)
          × Takes st hb om.0 om.1 now (ingest h st hb token now clock))
unfolding ingest after_validation recorded refusal repetition
ingest-effect h st hb token now clock = elim (Result-cases (validate h st hb token now clock)) [
  | inl (e, v) ↦
      inl
        (rw (v, ingest) (record { heartbeats_same = refl; snapshots_same = refl; not_new = refl }))
  | inr (om, v) ↦
      let previous = get hb.node_id st.heartbeats in
      elim (Bool-cases (moved_back previous hb.sequence)) [
        | inl b ↦ inl (
            rw (v, ingest, b, after_validation)
              (record { heartbeats_same = refl; snapshots_same = refl; not_new = refl }))
        | inr b ↦ elim (Bool-cases (repeats previous hb.sequence)) [
          | inl r ↦ inl (
              rw (v, ingest, b, r, after_validation)
                (record { heartbeats_same = refl; snapshots_same = refl; not_new = refl }))
          | inr r ↦ inr (
            om,
            v,
            rw (v, ingest, b, r, after_validation)
                (accept-Takes st hb om.0 om.1 now (sequence-Newer previous hb.sequence b r)),
          )
        ]
      ]
]

-- the sequence is that of the last heartbeat or an earlier one
abbrev pub Since : ℕ → Option NodeHeartbeat → Type 0
Since n none = ⊥
Since n (some hb) = n ≤ hb.sequence

Since-Newer : (o : Option NodeHeartbeat) (n m : ℕ) → Newer o m → Since n o → n ≤ m
Since-Newer none n m newer s = absurd s
Since-Newer (some hb) n m newer s = omega arith

not-Newer : (o : Option NodeHeartbeat) (n m : ℕ) → Since n o → m ≤ n → ¬ Newer o m
not-Newer none n m s le newer = s
not-Newer (some hb) n m s le newer = omega arith

Since-put :
    (d : Dict String NodeHeartbeat) (hb : NodeHeartbeat) (k : String) (n : ℕ)
    → Newer (get hb.node_id d) hb.sequence
    → Since n (get k d)
    → Since n (get k (put hb.node_id hb d))
Since-put d hb k n newer s = elim (Bool-cases (hb.node_id == k)) [
  | inr other ↦ rw (get-put hb.node_id k hb d, other) s
  | inl same ↦
      let is = (string_eq.beq_iff hb.node_id k).0 same in
      let later : Newer (get k d) hb.sequence = rw is at newer in
      let result : n ≤ hb.sequence = Since-Newer (get k d) n hb.sequence later s in
      rw (get-put hb.node_id k hb d, same) result
]

module _ (h : Hashes) where
  Since-ingest_call :
      (st : HeartbeatStore) (c : Ingest) (k : String) (n : ℕ)
      → Since n (get k st.heartbeats)
      → Since n (get k (ingest_call h st c).0.heartbeats)
  unfolding ingest_call
  Since-ingest_call st c k n s =
      elim (ingest-effect h (record st { identity_registry = c.registry }) c.heartbeat
        c.session_token c.now c.clock) [
          | inl same ↦ subst (λ d. Since n (get k d)) (sym same.heartbeats_same) s
          | inr (om, v, takes) ↦
              subst (λ d. Since n (get k d)) (sym takes.heartbeat)
                (Since-put st.heartbeats c.heartbeat k n takes.newer s)
        ]

  Since-run :
      (st : HeartbeatStore) (cs : List Ingest) (k : String) (n : ℕ)
      → Since n (get k st.heartbeats)
      → Since n (get k (run h st cs).heartbeats)
  unfolding run
  Since-run st [] k n s = s
  Since-run st (c ∷ cs) k n s =
      Since-run (ingest_call h st c).0 cs k n (Since-ingest_call st c k n s)

  -- Once a heartbeat of a node is stored, then after any further calls, with whatever registry, a
  -- heartbeat of the node whose sequence is not greater is not accepted as new, and neither the last
  -- heartbeat nor the snapshot of any node changes.
  pub run-Leaves :
      (st : HeartbeatStore) (cs : List Ingest) (hb : NodeHeartbeat) (c : Ingest)
      → get hb.node_id st.heartbeats ≡ some hb
      → c.heartbeat.node_id ≡ hb.node_id
      → c.heartbeat.sequence ≤ hb.sequence
      → Leaves (run h st cs) (ingest_call h (run h st cs) c)
  unfolding ingest_call
  run-Leaves st cs hb c found node le =
      let began : Since hb.sequence (get hb.node_id st.heartbeats) =
        subst (Since hb.sequence) (sym found) (le_refl hb.sequence) in
      let after = Since-run st cs hb.node_id hb.sequence began in
      let last = run h st cs in
      elim (ingest-effect h (record last { identity_registry = c.registry }) c.heartbeat
        c.session_token c.now c.clock) [
          | inl same ↦ record {
            heartbeats_same = same.heartbeats_same;
            snapshots_same = same.snapshots_same;
            not_new = same.not_new;
          }
          | inr (om, v, takes) ↦ absurd (
              not-Newer (get hb.node_id last.heartbeats) hb.sequence c.heartbeat.sequence after le
                (subst (λ i. Newer (get i last.heartbeats) c.heartbeat.sequence) node takes.newer))
        ]
