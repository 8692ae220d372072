-- ===== src/Heartbeat/Store.antt =====
-- node_heartbeat.py: NodeHeartbeatStore. `clock` is the wall clock, by which the identity registry
-- confirms a session; the other instants of a call are `now`. What the bus does with a publication is a
-- parameter: it may raise.
use cyber_hive.Prelude.{
  ltb, leb, if◌then◌else◌, string_eq, nat_eq, ◌==◌, keep, sorted_set, Result, ok, raise, ◌>>=◌,
  ◌>>◌, raise_if, is_empty, ℕ, ◌+◌, ◌*◌, String, Bool, true, false, not, Option, none, some, List,
  [], ◌∷◌, ◌++◌, map,
}
use cyber_hive.Prelude.Dict.{Dict, get, put}
use cyber_hive.Channel.Envelope.{direction_eq, purpose_eq, Stamp, aware, naive}
use cyber_hive.Heartbeat.Sample.{
  accepted, duplicate, denied, LivenessStatus, stale, expired, unknown, NodeHeartbeatError,
  node_id_empty, observed_at_naive, too_far_in_future, identity_unknown, session_id_empty,
  session_token_empty, session_refused, identity_not_enrolled, stale_not_positive,
  expire_not_greater, snapshot_unknown, Metrics, NodeHeartbeat, validate_metrics,
  heartbeat_findings, CapabilitySnapshot, NodeLiveness, second, snapshot_of, liveness_of, Reason,
  stated, raised, HeartbeatDecision,
}
use cyber_hive.Identity.{is_enrolled, Hashes}
use cyber_hive.Identity.Registry.{NodeIdentityRegistry, verify_session}

pub data BusFailure : Type 0 where
  bus_failed : BusFailure

pub record HeartbeatStore : Type 0 where
  pub identity_registry : Option NodeIdentityRegistry
  pub runtime_bus : Option (HeartbeatDecision → Bool)
  pub stale_after_seconds : ℕ
  pub expire_after_seconds : ℕ
  pub max_future_skew_seconds : ℕ
  pub require_session : Bool
  pub heartbeats : Dict String NodeHeartbeat
  pub snapshots : Dict String CapabilitySnapshot
  pub decisions : List HeartbeatDecision

-- `NodeHeartbeatStore.__init__`
unfoldable pub new_store :
    Option NodeIdentityRegistry
    → Option (HeartbeatDecision → Bool)
    → ℕ
    → ℕ
    → ℕ
    → Bool
    → Result NodeHeartbeatError HeartbeatStore
new_store registry bus stale_after expire_after skew needs_session =
    if leb stale_after 0
    then raise stale_not_positive
    else if leb expire_after stale_after
    then raise expire_not_greater
    else ok (record {
      identity_registry = registry;
      runtime_bus = bus;
      stale_after_seconds = stale_after;
      expire_after_seconds = expire_after;
      max_future_skew_seconds = skew;
      require_session = needs_session;
      heartbeats = [];
      snapshots = [];
      decisions = [];
    })

abbrev pub Reply : Type 0
Reply = HeartbeatStore × Result BusFailure HeartbeatDecision

-- None and the empty text are both no argument
unfoldable pub is_missing : Option String → Bool
is_missing none = true
is_missing (some s) = is_empty s

unfoldable pub or_empty : Option String → String
or_empty none = ""
or_empty (some s) = s

unfoldable pub validate_session :
    Hashes
    → NodeIdentityRegistry
    → NodeHeartbeat
    → Option String
    → ℕ
    → Result NodeHeartbeatError (Unit {0})
unfolding is_missing or_empty
validate_session h g hb token clock = do
  raise_if (is_missing hb.session_id) session_id_empty
  raise_if (is_missing token) session_token_empty
  raise_if (not (verify_session h g (or_empty hb.session_id) hb.node_id (or_empty token) clock))
      session_refused

unfoldable pub validate_identity :
    Hashes
    → HeartbeatStore
    → NodeHeartbeat
    → Option String
    → ℕ
    → Result NodeHeartbeatError (Unit {0})
unfolding validate_session
validate_identity h st hb token clock = elim st.identity_registry [
  | none ↦ ok tt
  | some g ↦ elim (get hb.node_id g.by_node_id) [
    | none ↦ raise identity_unknown
    | some i ↦
        if not (is_enrolled i.trust_state)
        then raise (identity_not_enrolled i.trust_state)
        else if st.require_session
        then validate_session h g hb token clock
        else ok tt
  ]
]

-- a datetime with a time zone
unfoldable pub aware_instant : Stamp → Result NodeHeartbeatError ℕ
aware_instant (aware t) = ok t
aware_instant (naive t) = raise observed_at_naive

-- `_validate`, which answers the instant of the observation and the numbers. A negative sequence, which
-- it refuses, is no number of the model.
unfoldable pub validate :
    Hashes
    → HeartbeatStore
    → NodeHeartbeat
    → Option String
    → ℕ
    → ℕ
    → Result NodeHeartbeatError (ℕ × Metrics)
unfolding aware_instant validate_identity
validate h st hb token now clock = do
  raise_if (is_empty hb.node_id) node_id_empty
  observed ← aware_instant hb.observed_at
  raise_if (ltb (now + second * st.max_future_skew_seconds) observed) too_far_in_future
  m ← validate_metrics hb.metrics
  validate_identity h st hb token clock
  ok (observed, m)

-- `_record`
unfoldable pub recorded : HeartbeatStore → HeartbeatDecision → Reply
recorded st d = (record st { decisions = st.decisions ++ d ∷ [] }, ok d)

unfoldable pub refusal : NodeHeartbeat → Reason → ℕ → HeartbeatDecision
refusal hb reason now = record {
  status = denied;
  node_id = hb.node_id;
  heartbeat_id = some hb.id;
  reason = reason;
  snapshot = none;
  liveness = none;
  findings = [];
  decided_at = now;
}

unfoldable pub liveness_at : HeartbeatStore → CapabilitySnapshot → ℕ → NodeLiveness
liveness_at st snap now = liveness_of snap st.stale_after_seconds st.expire_after_seconds now

unfoldable pub repetition : HeartbeatStore → NodeHeartbeat → ℕ → HeartbeatDecision
unfolding liveness_at
repetition st hb now =
    let found = get hb.node_id st.snapshots in
    record {
      status = duplicate;
      node_id = hb.node_id;
      heartbeat_id = some hb.id;
      reason = stated "duplicate heartbeat sequence";
      snapshot = found;
      liveness = elim found [ none ↦ none | some snap ↦ some (liveness_at st snap now) ];
      findings = [];
      decided_at = now;
    }

unfoldable pub acceptance :
    HeartbeatStore → NodeHeartbeat → Metrics → CapabilitySnapshot → ℕ → HeartbeatDecision
unfolding liveness_at
acceptance st hb m snap now = record {
  status = accepted;
  node_id = hb.node_id;
  heartbeat_id = some hb.id;
  reason = stated "heartbeat accepted";
  snapshot = some snap;
  liveness = some (liveness_at st snap now);
  findings = heartbeat_findings hb.capabilities m;
  decided_at = now;
}

-- `_publish` of a bus that may be None: whether it raises
unfoldable pub publish_fails : Option (HeartbeatDecision → Bool) → HeartbeatDecision → Bool
publish_fails none d = false
publish_fails (some fails) d = fails d

-- the rest of `ingest` for a sequence that is new
unfoldable pub accept : HeartbeatStore → NodeHeartbeat → ℕ → Metrics → ℕ → Reply
unfolding acceptance publish_fails recorded
accept st hb observed m now =
    let snap = snapshot_of hb m observed now in
    let st' = record st {
      heartbeats = put hb.node_id hb st.heartbeats;
      snapshots = put hb.node_id snap st.snapshots;
    } in
    let decision = acceptance st hb m snap now in
    if publish_fails st.runtime_bus decision then (st', raise bus_failed) else recorded st' decision

-- whether the sequence is smaller than that of the last heartbeat, or the same
unfoldable pub moved_back : Option NodeHeartbeat → ℕ → Bool
moved_back none n = false
moved_back (some previous) n = ltb n previous.sequence

unfoldable pub repeats : Option NodeHeartbeat → ℕ → Bool
repeats none n = false
repeats (some previous) n = n == previous.sequence

unfoldable pub after_validation :
    HeartbeatStore → NodeHeartbeat → ℕ → Result NodeHeartbeatError (ℕ × Metrics) → Reply
unfolding recorded accept moved_back repeats
after_validation st hb now (raise e) = recorded st (refusal hb (raised e) now)
after_validation st hb now (ok (observed, m)) =
    let previous = get hb.node_id st.heartbeats in
    if moved_back previous hb.sequence
    then recorded st (refusal hb (stated "heartbeat sequence moved backwards") now)
    else if repeats previous hb.sequence
    then recorded st (repetition st hb now)
    else accept st hb observed m now

unfoldable pub ingest : Hashes → HeartbeatStore → NodeHeartbeat → Option String → ℕ → ℕ → Reply
unfolding after_validation
ingest h st hb token now clock = after_validation st hb now (validate h st hb token now clock)

unfoldable pub require_snapshot :
    HeartbeatStore → String → Result NodeHeartbeatError CapabilitySnapshot
require_snapshot st node_id = elim (get node_id st.snapshots) [
  | none ↦ raise (snapshot_unknown node_id)
  | some snap ↦ ok snap
]

-- `NodeHeartbeatStore.liveness`
unfoldable pub liveness : HeartbeatStore → String → ℕ → NodeLiveness
unfolding liveness_at
liveness st node_id now = elim (get node_id st.snapshots) [
  | some snap ↦ liveness_at st snap now
  | none ↦ record {
    node_id = node_id;
    status = unknown;
    is_healthy = false;
    reason = "no heartbeat seen";
    age = 0;
    last_sequence = none;
    last_seen_at = none;
    evaluated_at = now;
  }
]

abbrev pub keys : {V : Type 0} → Dict String V → List String
keys [] = []
keys ((k, v) ∷ d) = k ∷ keys d

-- The keys of a dictionary are distinct, so that the sorted list of them is that of their set.
unfoldable pub list_liveness : HeartbeatStore → ℕ → List NodeLiveness
list_liveness st now = map (λ node_id. liveness st node_id now) (sorted_set (keys st.snapshots))

abbrev pub is_stale : LivenessStatus → Bool
is_stale stale = true
is_stale expired = true
is_stale _ = false

unfoldable pub stale_nodes : HeartbeatStore → ℕ → List String
unfolding list_liveness
stale_nodes st now = map (λ l. l.node_id) (keep (λ l. is_stale l.status) (list_liveness st now))

-- One call of `ingest`, with the registry, a shared object, as it is then.
pub record Ingest : Type 0 where
  pub registry : Option NodeIdentityRegistry
  pub heartbeat : NodeHeartbeat
  pub session_token : Option String
  pub now : ℕ
  pub clock : ℕ

unfoldable pub ingest_call : Hashes → HeartbeatStore → Ingest → Reply
ingest_call h st c =
    ingest h (record st { identity_registry = c.registry }) c.heartbeat c.session_token c.now
      c.clock

unfoldable pub run : Hashes → HeartbeatStore → List Ingest → HeartbeatStore
run h st [] = st
run h st (c ∷ cs) = run h (ingest_call h st c).0 cs
