-- ===== src/Identity/Enrollment/Revoked.antt =====
-- node_identity.py: revocation over a history of calls.
use mathlib.Core.Option.{some-injective}
use cyber_hive.Identity.Enrollment.Tokens.{refusal-none}
use cyber_hive.Prelude.{
  Bool-cases, Option-cases, string_eq, nat_eq, ◌==◌, All, ok, is_ok, Result-cases, ℕ, String, ◌≡◌,
  refl, inl, inr, true, false, none, some, List, [], ◌∷◌, arith, eq_iff, eq_refl,
}
use cyber_hive.Prelude.Dict.{Dict, get, put, get-put}
use cyber_hive.Identity.{
  TrustState, pending, enrolled, quarantined, revoked, is_enrolled, is_revoked, Hashes,
  BootstrapToken, EnrollmentRequest, NodeIdentity, revoke_identity, quarantine_identity,
  restore_identity,
}
use cyber_hive.Identity.Registry.{
  NodeIdentityRegistry, is_other, owned_by_other, register, revoke, quarantine, restore,
  issue_session, verify_session,
}
use cyber_hive.Identity.Enrollment.{
  EnrollmentAuthority, create_bootstrap_token, revoke_bootstrap_token, record_decision,
  new_identity, refusal, enroll, decide_enrollment, evaluate, Call, creates_token, withdraws_token,
  evaluates, revokes, restores, quarantines, registers, issues, step, run,
}
use cyber_hive.Identity.Registry.Sessions.{verify_session-IsLive}

-- The node is known and revoked.
abbrev pub Gone : String → Dict String NodeIdentity → Type 0
Gone node_id d = (i : NodeIdentity) × (get node_id d ≡ some i) × (is_revoked i.trust_state ≡ true)

-- The call does not quarantine this node, and registers no identity for it that is not revoked.
abbrev pub Spares : String → Call → Type 0
Spares node_id (quarantines other reason now) = (other == node_id) ≡ false
Spares node_id (registers i) = (i.node_id == node_id) ≡ true → is_revoked i.trust_state ≡ true
Spares node_id _ = Unit

Gone-put :
    (node_id k : String) (i : NodeIdentity) (d : Dict String NodeIdentity)
    → Gone node_id d
    → ((k == node_id) ≡ true → is_revoked i.trust_state ≡ true)
    → Gone node_id (put k i d)
Gone-put node_id k i d (j, found, was) now_too = elim (Bool-cases (k == node_id)) [
  | inl same ↦ (i, rw (get-put k node_id i d, same) refl, now_too same)
  | inr other ↦ (j, rw (get-put k node_id i d, other) found, was)
]

registry-create_bootstrap_token :
    (h : Hashes) (a : EnrollmentAuthority) (ttl max_uses : ℕ) (scopes : List String)
    (secret id : String) (now : ℕ)
    → (create_bootstrap_token h a ttl max_uses scopes secret id now).0.registry ≡ a.registry
unfolding create_bootstrap_token
registry-create_bootstrap_token h a ttl max_uses scopes secret id now = ground arith

registry-revoke_bootstrap_token :
    (a : EnrollmentAuthority) (id : String) → (revoke_bootstrap_token a id).0.registry ≡ a.registry
unfolding revoke_bootstrap_token
registry-revoke_bootstrap_token a id = ground arith

by_node_id-issue_session :
    (h : Hashes) (g : NodeIdentityRegistry) (k : String) (ttl : ℕ) (token id : String) (now : ℕ)
    → (issue_session h g k ttl token id now).0.by_node_id ≡ g.by_node_id
unfolding issue_session
by_node_id-issue_session h g k ttl token id now = ground arith

module _ (node_id : String) where
  Gone-register :
      (g : NodeIdentityRegistry) (i : NodeIdentity)
      → ((i.node_id == node_id) ≡ true → is_revoked i.trust_state ≡ true)
      → Gone node_id g.by_node_id
      → Gone node_id (register g i).0.by_node_id
  unfolding register
  Gone-register g i now_too gone = elim (Bool-cases (is_other (get i.node_id g.by_node_id) i)) [
    | inl known ↦ rw (register, known) gone
    | inr free ↦
        elim (Bool-cases
          (owned_by_other (get i.public_key_fingerprint g.by_fingerprint) i.node_id)) [
            | inl taken ↦ rw (register, free, taken) gone
            | inr own ↦
                rw (register, free, own) (Gone-put node_id i.node_id i g.by_node_id gone now_too)
          ]
  ]

  Gone-revoke :
      (g : NodeIdentityRegistry) (k : String) (now : ℕ)
      → Gone node_id g.by_node_id
      → Gone node_id (revoke g k now).0.by_node_id
  unfolding revoke revoke_identity
  Gone-revoke g k now gone = elim (Option-cases (get k g.by_node_id)) [
    | inl unknown ↦ rw (revoke, unknown) gone
    | inr (i, known) ↦
        rw (revoke, known)
          (Gone-put node_id k (revoke_identity i now) g.by_node_id gone (λ same. refl))
  ]

  Gone-quarantine :
      (g : NodeIdentityRegistry) (k reason : String) (now : ℕ)
      → (k == node_id) ≡ false
      → Gone node_id g.by_node_id
      → Gone node_id (quarantine g k reason now).0.by_node_id
  unfolding quarantine quarantine_identity
  Gone-quarantine g k reason now other gone = elim (Option-cases (get k g.by_node_id)) [
    | inl unknown ↦ rw (quarantine, unknown) gone
    | inr (i, known) ↦
        rw (quarantine, known)
          (Gone-put node_id k (quarantine_identity i reason now) g.by_node_id gone
            (λ same. cc (same, other)))
  ]

  still_revoked :
      (d : Dict String NodeIdentity) (k : String) (i : NodeIdentity)
      → Gone node_id d
      → get k d ≡ some i
      → (k == node_id) ≡ true
      → is_revoked i.trust_state ≡ true
  still_revoked d k i (j, found, was) known same =
      let is = some-injective i j (cc (known, found, (eq_iff k node_id).0 same)) in rw is was

  Gone-restore :
      (g : NodeIdentityRegistry) (k : String) (now : ℕ)
      → Gone node_id g.by_node_id
      → Gone node_id (restore g k now).0.by_node_id
  unfolding restore restore_identity
  Gone-restore g k now gone = elim (Option-cases (get k g.by_node_id)) [
    | inl unknown ↦ rw (restore, unknown) gone
    | inr (i, known) ↦ elim (Bool-cases (is_revoked i.trust_state)) [
      | inl final ↦ rw (restore, known, restore_identity, final) gone
      | inr running ↦
          rw (restore, known, restore_identity, running)
            (Gone-put node_id k
              (record i { trust_state = enrolled; quarantine_reason = none; updated_at = now })
              g.by_node_id gone
              (λ same. cc (still_revoked g.by_node_id k i gone known same, running)))
    ]
  ]

  Gone-enroll :
      (a : EnrollmentAuthority) (token : BootstrapToken) (request : EnrollmentRequest)
      (i : NodeIdentity) (now : ℕ)
      → get i.node_id a.registry.by_node_id ≡ none
      → Gone node_id a.registry.by_node_id
      → Gone node_id (enroll a token request i now).0.registry.by_node_id
  unfolding enroll record_decision
  Gone-enroll a token request i now free gone = elim (Result-cases (register a.registry i).1) [
    | inl (e, raised) ↦ rw (enroll, raised) gone
    | inr (j, registered) ↦
        rw (enroll, registered)
          (Gone-register a.registry i (λ same. cc (free, gone.1, (eq_iff i.node_id node_id).0 same))
            gone)
  ]

  Gone-evaluate :
      (h : Hashes) (a : EnrollmentAuthority) (request : EnrollmentRequest) (id : String) (now : ℕ)
      → Gone node_id a.registry.by_node_id
      → Gone node_id (evaluate h a request id now).0.registry.by_node_id
  unfolding evaluate
  Gone-evaluate h a request id now gone =
      elim (Option-cases (get request.bootstrap_token_id a.tokens)) [
        | inl missing ↦
            unfold refusal decide_enrollment record_decision in rw (evaluate, missing) gone
        | inr (token, found) ↦ elim (Option-cases (refusal h a (some token) request now)) [
          | inr (why, refused) ↦
              unfold decide_enrollment record_decision in rw (evaluate, found, refused) gone
          | inl clear ↦
              rw (evaluate, found, clear)
                (Gone-enroll a token request (new_identity h request id now) now
                  (unfold new_identity in (refusal-none h a request id now token clear).3) gone)
        ]
      ]

  Gone-step :
      (h : Hashes) (a : EnrollmentAuthority) (c : Call)
      → Spares node_id c
      → Gone node_id a.registry.by_node_id
      → Gone node_id (step h a c).registry.by_node_id
  unfolding step
  Gone-step h a (creates_token ttl max_uses scopes secret id now) spares gone =
      rw (registry-create_bootstrap_token h a ttl max_uses scopes secret id now) gone
  Gone-step h a (withdraws_token id) spares gone = rw (registry-revoke_bootstrap_token a id) gone
  Gone-step h a (evaluates request id now) spares gone = Gone-evaluate h a request id now gone
  Gone-step h a (revokes k now) spares gone = Gone-revoke a.registry k now gone
  Gone-step h a (restores k now) spares gone = Gone-restore a.registry k now gone
  Gone-step h a (quarantines k reason now) spares gone =
      Gone-quarantine a.registry k reason now spares gone
  Gone-step h a (registers i) spares gone = Gone-register a.registry i spares gone
  Gone-step h a (issues k ttl token id now) spares gone =
      rw (by_node_id-issue_session h a.registry k ttl token id now) gone

  Gone-run :
      (h : Hashes) (a : EnrollmentAuthority) (cs : List Call)
      → All (Spares node_id) cs
      → Gone node_id a.registry.by_node_id
      → Gone node_id (run h a cs).registry.by_node_id
  unfolding run
  Gone-run h a [] spares gone = gone
  Gone-run h a (c ∷ cs) spares gone =
      Gone-run h (step h a c) cs spares.1 (Gone-step h a c spares.0 gone)

both_states : (s : TrustState) → is_enrolled s ≡ true → is_revoked s ≡ true → ⊥
both_states pending h h' = ground arith
both_states enrolled h h' = ground arith
both_states quarantined h h' = ground arith
both_states revoked h h' = ground arith

revoke-Gone :
    (g : NodeIdentityRegistry) (node_id : String) (now : ℕ) (i : NodeIdentity)
    → (revoke g node_id now).1 ≡ ok i
    → Gone node_id (revoke g node_id now).0.by_node_id
unfolding revoke revoke_identity
revoke-Gone g node_id now i done = elim (Option-cases (get node_id g.by_node_id)) [
  | inl unknown ↦ cc (rw (revoke, unknown) at done)
  | inr (j, known) ↦ rw (revoke, known) (revoke_identity j now, rw (get-put, eq_refl) refl, refl)
]

Gone-refused :
    (h : Hashes) (g : NodeIdentityRegistry) (session_id node_id token : String) (instant : ℕ)
    → Gone node_id g.by_node_id
    → verify_session h g session_id node_id token instant ≡ false
Gone-refused h g session_id node_id token instant (i, known, was) =
    elim (Bool-cases (verify_session h g session_id node_id token instant)) [
      | inr refused ↦ refused
      | inl confirmed ↦
          let v = (verify_session-IsLive h g session_id node_id token instant).0 confirmed in
          let is = some-injective v.identity i (cc (v.known, known)) in
          absurd (both_states i.trust_state (rw is at v.trusted) was)
    ]

-- Once `revoke` has revoked a node, no session of it is confirmed again, with any token and at any time:
-- not after any further calls on the authority or the registry, restoring and enrolling included, among
-- which none quarantines this node and none registers an identity for it that is not revoked.
pub run-revoked :
    (h : Hashes) (a : EnrollmentAuthority) (node_id : String) (now : ℕ) (i : NodeIdentity)
    (cs : List Call)
    → (revoke a.registry node_id now).1 ≡ ok i
    → All (Spares node_id) cs
    → (session_id token : String) (instant : ℕ)
    → verify_session h
        (run h (record a { registry = (revoke a.registry node_id now).0 }) cs).registry
        session_id
        node_id
        token
        instant
      ≡ false
run-revoked h a node_id now i cs done spares session_id token instant =
    let gone =
      Gone-run node_id h (record a { registry = (revoke a.registry node_id now).0 }) cs spares
        (revoke-Gone a.registry node_id now i done) in
    Gone-refused h (run h (record a { registry = (revoke a.registry node_id now).0 }) cs).registry
      session_id node_id token instant gone

-- Quarantine opens the way back from revocation: whatever the trust state of a known node, revoked
-- included, `restore` after `quarantine` answers an enrolled identity, and a session for the node can be
-- issued.
pub quarantine-restores :
    (h : Hashes) (g : NodeIdentityRegistry) (node_id reason token id : String) (ttl now later : ℕ)
    (i : NodeIdentity)
    → get node_id g.by_node_id ≡ some i
    → let g' = (restore (quarantine g node_id reason now).0 node_id later).0 in
      ((i' : NodeIdentity) × ((restore (quarantine g node_id reason now).0 node_id later).1 ≡ ok i')
        × (i'.trust_state ≡ enrolled))
      × (is_ok (issue_session h g' node_id ttl token id later).1 ≡ true)
unfolding quarantine quarantine_identity restore restore_identity issue_session
quarantine-restores h g node_id reason token id ttl now later i known = (
  (
    record (quarantine_identity i reason now) {
      trust_state = enrolled;
      quarantine_reason = none;
      updated_at = later;
    },
    rw (quarantine, known, restore, get-put, eq_refl) refl,
    refl,
  ),
  rw (quarantine, known, restore, get-put, eq_refl, issue_session, get-put, eq_refl) refl,
)
