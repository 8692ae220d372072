-- ===== src/Heartbeat/Valid.antt =====
-- node_heartbeat.py: what `_validate` tests.
use mathlib.Core.Path.{subst}
use cyber_hive.Prelude.{
  ltb, if◌then◌else◌, ltb→le, Bool-cases, Option-cases, string_eq, nat_eq, ok, ok-injective,
  raise_if, bind-ok, raise_if-ok, is_empty, ℕ, ◌+◌, ◌*◌, ◌≤◌, ◌<◌, String, ◌≡◌, refl, sym, ap, ◌∙◌,
  ◌↔◌, inl, inr, Bool, true, false, not, Option, none, some, arith,
}
use cyber_hive.Prelude.Dict.{get}
use cyber_hive.Channel.Envelope.{direction_eq, purpose_eq, Stamp, aware, naive}
use cyber_hive.Heartbeat.Sample.{
  node_id_empty, too_far_in_future, RawMetrics, Metrics, NodeHeartbeat, read_metrics, exceeds,
  check_metrics, validate_metrics, second, snapshot_of, HeartbeatDecision,
}
use cyber_hive.Heartbeat.Sequences.{Newer, is_acceptance, Newer-passes, ingest-effect}
use cyber_hive.Heartbeat.Store.{
  HeartbeatStore, is_missing, or_empty, validate_session, validate_identity, aware_instant,
  validate, recorded, acceptance, publish_fails, accept, after_validation, ingest,
}
use cyber_hive.Identity.{enrolled, is_enrolled, Hashes, NodeIdentity}
use cyber_hive.Identity.Registry.{NodeIdentityRegistry, verify_session}

-- What the identity registry must say of the sender, if there is a registry.
abbrev pub IsTrusted :
    Hashes → Option NodeIdentityRegistry → Bool → NodeHeartbeat → Option String → ℕ → Type 0
IsTrusted h none needs_session hb token clock = Unit
IsTrusted h (some g) needs_session hb token clock =
    (i : NodeIdentity) × (get hb.node_id g.by_node_id ≡ some i)
    × (i.trust_state ≡ enrolled)
    × (needs_session ≡ true
        → (s : String) × (t : String) × (hb.session_id ≡ some s)
          × (token ≡ some t)
          × (is_empty s ≡ false)
          × (is_empty t ≡ false)
          × (verify_session h g s hb.node_id t clock ≡ true))

-- The numbers are in order: where it is known how much there is, no more is free.
pub record IsPlausible (m : Metrics) : Type 0 where
  pub free_cpu : 0 < m.cpu_cores → m.free_cpu_cores ≤ m.cpu_cores
  pub free_memory : 0 < m.memory_gb → m.free_memory_gb ≤ m.memory_gb
  pub free_vram : 0 < m.gpu_vram_gb → m.free_vram_gb ≤ m.gpu_vram_gb

pub record IsValid (h : Hashes) (st : HeartbeatStore) (hb : NodeHeartbeat) (token : Option String)
    (now clock : ℕ) (om : ℕ × Metrics) : Type 0 where
  pub has_node : is_empty hb.node_id ≡ false
  pub has_zone : hb.observed_at ≡ aware om.0
  pub not_ahead : om.0 ≤ now + second * st.max_future_skew_seconds
  pub are_numbers : read_metrics hb.metrics ≡ ok om.1
  pub plausible : IsPlausible om.1
  pub trusted : IsTrusted h st.identity_registry st.require_session hb token clock

session-ok :
    (h : Hashes) (g : NodeIdentityRegistry) (hb : NodeHeartbeat) (token : Option String) (clock : ℕ)
    (u : Unit {0})
    → validate_session h g hb token clock ≡ ok u
    → (s : String) × (t : String) × (hb.session_id ≡ some s)
      × (token ≡ some t)
      × (is_empty s ≡ false)
      × (is_empty t ≡ false)
      × (verify_session h g s hb.node_id t clock ≡ true)
unfolding validate_session is_missing or_empty
session-ok h g hb none clock u e = ground arith
session-ok h g hb (some t) clock u e = elim (Option-cases hb.session_id) [
  | inl n ↦ ground arith
  | inr (s, n) ↦ (s, t, n, refl, ground arith, ground arith, ground arith)
]

identity-ok :
    (h : Hashes) (st : HeartbeatStore) (hb : NodeHeartbeat) (token : Option String) (clock : ℕ)
    (u : Unit {0})
    → validate_identity h st hb token clock ≡ ok u
    → IsTrusted h st.identity_registry st.require_session hb token clock
unfolding validate_identity
identity-ok h st hb token clock u e = elim (Option-cases st.identity_registry) [
  | inl n ↦ rw n tt
  | inr (g, n) ↦ elim (Option-cases (get hb.node_id g.by_node_id)) [
    | inl m ↦ cc (rw (n, m, validate_identity) at e)
    | inr (i, m) ↦ elim (Bool-cases (not (is_enrolled i.trust_state))) [
      | inl b ↦ cc (rw (n, m, b, validate_identity) at e)
      | inr b ↦
          let rest : (if st.require_session then validate_session h g hb token clock else ok tt)
              ≡ ok u =
            rw (n, m, b, validate_identity) at e in
          rw n (i, m, ground arith, (λ needs. session-ok h g hb token clock u (rw needs at rest)))
    ]
  ]
]

session-passes :
    (h : Hashes) (g : NodeIdentityRegistry) (hb : NodeHeartbeat) (s t : String) (clock : ℕ)
    → hb.session_id ≡ some s
    → is_empty s ≡ false
    → is_empty t ≡ false
    → verify_session h g s hb.node_id t clock ≡ true
    → validate_session h g hb (some t) clock ≡ ok tt
unfolding validate_session is_missing or_empty
session-passes h g hb s t clock n a b v = rw (n, a, b, v) refl

identity-passes :
    (h : Hashes) (st : HeartbeatStore) (hb : NodeHeartbeat) (token : Option String) (clock : ℕ)
    → IsTrusted h st.identity_registry st.require_session hb token clock
    → validate_identity h st hb token clock ≡ ok tt
unfolding validate_identity
identity-passes h st hb token clock q = elim (Option-cases st.identity_registry) [
  | inl n ↦ rw (n, validate_identity) refl
  | inr (g, n) ↦
      let (i, m, live, trust) : IsTrusted h (some g) st.require_session hb token clock =
        rw n at q in
      elim (Bool-cases st.require_session) [
        | inr b ↦ rw (n, m, live, b, validate_identity) refl
        | inl b ↦
            let (s, t, hs, ht, es, et, v) = trust b in
            rw (n, m, live, b, ht, validate_identity) (session-passes h g hb s t clock hs es et v)
      ]
]

check_metrics-IsPlausible : (m m' : Metrics) → check_metrics m ≡ ok m' → (m ≡ m') × IsPlausible m
unfolding check_metrics exceeds
check_metrics-IsPlausible m m' e = (
  ground arith,
  record { free_cpu = ground arith; free_memory = ground arith; free_vram = ground arith },
)

plausible-passes : (m : Metrics) → IsPlausible m → check_metrics m ≡ ok m
unfolding check_metrics exceeds
plausible-passes m p = ground (arith, p.free_cpu, p.free_memory, p.free_vram)

aware_instant-ok : (s : Stamp) (t : ℕ) → aware_instant s ≡ ok t → s ≡ aware t
unfolding aware_instant
aware_instant-ok (aware n) t e = ground arith
aware_instant-ok (naive n) t e = cc

metrics-ok :
    (raw : RawMetrics) (m : Metrics)
    → validate_metrics raw ≡ ok m
    → (read_metrics raw ≡ ok m) × IsPlausible m
unfolding validate_metrics
metrics-ok raw m e =
    let (m', r, c) = bind-ok (read_metrics raw) check_metrics m e in
    let (same, p) = check_metrics-IsPlausible m' m c in
    (r ∙ ap (λ x. ok x) same, subst IsPlausible same p)

pub validate-IsValid :
    (h : Hashes) (st : HeartbeatStore) (hb : NodeHeartbeat) (token : Option String) (now clock : ℕ)
    (om : ℕ × Metrics)
    → validate h st hb token now clock ≡ ok om
    → IsValid h st hb token now clock om
unfolding validate
validate-IsValid h st hb token now clock om e =
    let (u1, e1, r1) = bind-ok (raise_if (is_empty hb.node_id) node_id_empty) _ om e in
    let (t, e2, r2) = bind-ok (aware_instant hb.observed_at) _ om r1 in
    let (u3, e3, r3) =
      bind-ok (raise_if (ltb (now + second * st.max_future_skew_seconds) t) too_far_in_future) _ om
        r2 in
    let (m, e4, r4) = bind-ok (validate_metrics hb.metrics) _ om r3 in
    let (u5, e5, r5) = bind-ok (validate_identity h st hb token clock) _ om r4 in
    let whole : om ≡ (t, m) = ok-injective (ok om) om (t, m) refl (sym r5) in
    let numbers = metrics-ok hb.metrics m e4 in
    subst (IsValid h st hb token now clock) (sym whole) (record {
      has_node = raise_if-ok _ _ u1 e1;
      has_zone = aware_instant-ok hb.observed_at t e2;
      not_ahead = ltb→le _ _ (raise_if-ok _ _ u3 e3);
      are_numbers = numbers.0;
      plausible = numbers.1;
      trusted = identity-ok h st hb token clock u5 e5;
    })

IsValid-validate :
    (h : Hashes) (st : HeartbeatStore) (hb : NodeHeartbeat) (token : Option String) (now clock : ℕ)
    (om : ℕ × Metrics)
    → IsValid h st hb token now clock om
    → validate h st hb token now clock ≡ ok om
unfolding validate aware_instant validate_metrics
IsValid-validate h st hb token now clock om v =
    let in_time : ltb (now + second * st.max_future_skew_seconds) om.0 ≡ false =
      ground (arith, v.not_ahead) in
    rw
      (
        v.has_node,
        v.has_zone,
        in_time,
        v.are_numbers,
        plausible-passes om.1 v.plausible,
        identity-passes h st hb token clock v.trusted,
      )
      refl

-- With a bus that does not raise, `ingest` accepts a heartbeat as new exactly if it names its node, was
-- observed at an instant with a time zone and not too far ahead, gives numbers with no more free than
-- there is, comes from an enrolled node in a confirmed session where the store asks for these, and has a
-- sequence greater than that of the last heartbeat of its node.
pub is_acceptance-IsValid :
    (h : Hashes) (st : HeartbeatStore) (hb : NodeHeartbeat) (token : Option String) (now clock : ℕ)
    → ((d : HeartbeatDecision) → publish_fails st.runtime_bus d ≡ false)
    → is_acceptance (ingest h st hb token now clock).1 ≡ true ↔ (
        (om : ℕ × Metrics) × IsValid h st hb token now clock om
        × Newer (get hb.node_id st.heartbeats) hb.sequence)
unfolding ingest after_validation accept recorded acceptance
is_acceptance-IsValid h st hb token now clock quiet = (
  (λ yes. elim (ingest-effect h st hb token now clock) [
    | inl same ↦ cc (yes, same.not_new)
    | inr (om, v, takes) ↦ (om, validate-IsValid h st hb token now clock om v, takes.newer)
  ]),
  (λ (om, v, newer).
      let (fore, other) = Newer-passes (get hb.node_id st.heartbeats) hb.sequence newer in
      let m = om.1 in
      let snap = snapshot_of hb m om.0 now in
      rw
        (
          IsValid-validate h st hb token now clock om v,
          ingest,
          fore,
          other,
          after_validation,
          quiet (acceptance st hb m snap now),
          accept,
        )
        refl),
)
