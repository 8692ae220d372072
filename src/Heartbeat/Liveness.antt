-- ===== src/Heartbeat/Liveness.antt =====
-- node_heartbeat.py: how the liveness of a node falls with time.
use mathlib.Core.Path.{subst}
use mathlib.Core.Option.{some-injective}
use cyber_hive.Prelude.{
  leb, leb→le, le→leb, Bool-cases, Option-cases, is_some, string_eq, nat_eq, keep, mem, sorted_set,
  mem-sorted_set, ℕ, ◌+◌, ◌-◌, ◌*◌, ◌≤◌, ◌<◌, String, ◌≡◌, refl, sym, ap, ◌∙◌, ◌↔◌, inl, inr, Bool,
  true, ◌&&◌, some, List, [], ◌∷◌, map, arith, eq_iff,
}
use cyber_hive.Prelude.Dict.{Dict, get}
use cyber_hive.Heartbeat.Sample.{
  LivenessStatus, healthy, degraded, stale, expired, unknown, CapabilitySnapshot, NodeLiveness,
  second, age_of, judge, liveness_of,
}
use cyber_hive.Heartbeat.Store.{
  HeartbeatStore, liveness_at, liveness, keys, list_liveness, is_stale, stale_nodes,
}

-- The worse a status is, the greater its number.
abbrev pub worse : LivenessStatus → ℕ
worse healthy = 0
worse degraded = 1
worse stale = 2
worse expired = 3
worse unknown = 4

judge-declines :
    (snap : CapabilitySnapshot) (stale_after expire_after now later : ℕ)
    → stale_after < expire_after
    → now ≤ later
    → worse (judge snap stale_after expire_after now).0
      ≤ worse (judge snap stale_after expire_after later).0
unfolding judge age_of
judge-declines snap stale_after expire_after now later order le = ground arith

-- No call is made in between: the liveness of a node never gets better from one instant to a later one.
-- A node is unknown at both or at neither.
pub liveness-declines :
    (st : HeartbeatStore) (node_id : String) (now later : ℕ)
    → st.stale_after_seconds < st.expire_after_seconds
    → now ≤ later
    → worse (liveness st node_id now).status ≤ worse (liveness st node_id later).status
unfolding liveness liveness_at liveness_of
liveness-declines st node_id now later order le = elim (Option-cases (get node_id st.snapshots)) [
  | inl e ↦ rw (e, liveness) (omega arith)
  | inr (snap, e) ↦
      rw (e, liveness)
        (judge-declines snap st.stale_after_seconds st.expire_after_seconds now later order le)
]

-- The node has a snapshot whose age has reached the stale limit.
abbrev pub Overdue : HeartbeatStore → String → ℕ → Type 0
Overdue st node_id now =
    (snap : CapabilitySnapshot) × (get node_id st.snapshots ≡ some snap)
    × (snap.observed_at + second * st.stale_after_seconds ≤ now)

is_stale-judge :
    (snap : CapabilitySnapshot) (stale_after expire_after now : ℕ)
    → stale_after < expire_after
    → is_stale (judge snap stale_after expire_after now).0
      ≡ leb (second * stale_after) (now - snap.observed_at)
unfolding judge age_of
is_stale-judge snap stale_after expire_after now order = ground arith

mem-keys : {V : Type 0} (k : String) (d : Dict String V) → mem k (keys d) ≡ is_some (get k d)
unfolding mem get
mem-keys k [] = refl
mem-keys k ((j, v) ∷ d) = ground (arith, mem-keys k d)

-- the nodes of a list of answers that pass a test, where each answer is of its node
mem-tested :
    (answer : String → NodeLiveness) (test : NodeLiveness → Bool) (k : String) (ks : List String)
    → ((j : String) → (answer j).node_id ≡ j)
    → mem k (map (λ l. l.node_id) (keep test (map answer ks))) ≡ (mem k ks && test (answer k))
unfolding mem keep
mem-tested answer test k [] own = refl
mem-tested answer test k (j ∷ ks) own =
    let same : j ≡ k → test (answer j) ≡ test (answer k) = λ e. ap (λ i. test (answer i)) e in
    elim (Bool-cases (test (answer j))) [
      | inl b ↦ rw (b, own j) (ground (arith, b, same, eq_iff j k, mem-tested answer test k ks own))
      | inr b ↦ rw b (ground (arith, b, same, eq_iff j k, mem-tested answer test k ks own))
    ]

own-liveness :
    (st : HeartbeatStore) (now : ℕ)
    → ((k : String) (snap : CapabilitySnapshot) → get k st.snapshots ≡ some snap → snap.node_id ≡ k)
    → (k : String) → (liveness st k now).node_id ≡ k
unfolding liveness liveness_at liveness_of
own-liveness st now own k = elim (Option-cases (get k st.snapshots)) [
  | inl e ↦ rw (e, liveness) refl
  | inr (snap, e) ↦ rw (e, liveness) (own k snap e)
]

is_stale-Overdue :
    (st : HeartbeatStore) (k : String) (now : ℕ)
    → 0 < st.stale_after_seconds
    → st.stale_after_seconds < st.expire_after_seconds
    → (is_some (get k st.snapshots) && is_stale (liveness st k now).status) ≡ true
      ↔ Overdue st k now
unfolding liveness liveness_at liveness_of
is_stale-Overdue st k now positive order = elim (Option-cases (get k st.snapshots)) [
  | inl e ↦ ((λ h. cc (rw e at h)), (λ (snap, f, g). cc (e, f)))
  | inr (snap, e) ↦
      let judged = is_stale-judge snap st.stale_after_seconds st.expire_after_seconds now order in
      (
        (λ h.
            let aged : leb (second * st.stale_after_seconds) (now - snap.observed_at) ≡ true =
              sym judged ∙ (rw (e, liveness) at h) in
            let old : snap.observed_at + second * st.stale_after_seconds ≤ now =
              omega (arith, leb→le _ _ aged, positive) in
            (snap, e, old)),
        (λ (other, f, g).
            let old : snap.observed_at + second * st.stale_after_seconds ≤ now =
              subst (λ x. x.observed_at + second * st.stale_after_seconds ≤ now)
                (some-injective other snap (sym f ∙ e)) g in
            rw (e, liveness, judged) (le→leb _ _ (omega (arith, old)))),
      )
]

-- In a store with the limits that its constructor accepts, whose snapshots are of the nodes under which
-- they stand, a node is listed as stale exactly if it has a snapshot whose age has reached the limit.
pub stale_nodes-Overdue :
    (st : HeartbeatStore) (k : String) (now : ℕ)
    → 0 < st.stale_after_seconds
    → st.stale_after_seconds < st.expire_after_seconds
    → ((j : String) (snap : CapabilitySnapshot) → get j st.snapshots ≡ some snap → snap.node_id ≡ j)
    → mem k (stale_nodes st now) ≡ true ↔ Overdue st k now
unfolding stale_nodes list_liveness
stale_nodes-Overdue st k now positive order own =
    let listed : mem k (stale_nodes st now)
        ≡ (is_some (get k st.snapshots) && is_stale (liveness st k now).status) =
      mem-tested (λ j. liveness st j now) (λ l. is_stale l.status) k
        (sorted_set (keys st.snapshots)) (own-liveness st now own)
      ∙ ap (λ b. b && is_stale (liveness st k now).status)
          (mem-sorted_set k (keys st.snapshots) ∙ mem-keys k st.snapshots) in
    rw listed (is_stale-Overdue st k now positive order)
