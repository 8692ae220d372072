-- ===== src/Identity/Enrollment/Uses.antt =====
-- node_identity.py: how often a bootstrap token is used over a history of calls.
use mathlib.Core.Option.{some-injective}
use cyber_hive.Prelude.{
  leb, if◌then◌else◌, Bool-cases, Option-cases, string_eq, nat_eq, ◌==◌, All, Result-cases, ℕ, ◌+◌,
  ◌≤◌, ◌<◌, String, ◌≡◌, refl, ap, ◌∙◌, inl, inr, true, false, some, List, [], ◌∷◌, arith, eq_iff,
}
use cyber_hive.Prelude.Dict.{Dict, get, put, get-put}
use cyber_hive.Identity.{Hashes, BootstrapToken, EnrollmentRequest, is_active, NodeIdentity}
use cyber_hive.Identity.Registry.{register}
use cyber_hive.Identity.Enrollment.{
  is_approval, EnrollmentAuthority, create_bootstrap_token, revoke_bootstrap_token, record_decision,
  new_identity, refusal, enroll, decide_enrollment, evaluate, Call, creates_token, withdraws_token,
  evaluates, revokes, restores, quarantines, registers, issues, step, run,
}
use cyber_hive.Identity.Enrollment.Tokens.{refusal-none, evaluate-clear}

-- The call makes no token under this id.
abbrev pub MakesNone : String → Call → Type 0
MakesNone id (creates_token ttl max_uses scopes secret other now) = (other == id) ≡ false
MakesNone id _ = Unit

-- one for a call that approves a request which names the token, none for any other
abbrev pub approval_in : Hashes → EnrollmentAuthority → String → Call → ℕ
approval_in h a id (evaluates request fresh now) =
    if request.bootstrap_token_id == id
    then if is_approval (evaluate h a request fresh now).1 then 1 else 0
    else 0
approval_in h a id _ = 0

-- how many requests the calls approve on the token
abbrev pub approvals : Hashes → EnrollmentAuthority → String → List Call → ℕ
approvals h a id [] = 0
approvals h a id (c ∷ cs) = approval_in h a id c + approvals h (step h a c) id cs

-- The token is stored still, with so many more uses, and within its limit.
abbrev Counted : String → BootstrapToken → ℕ → Dict String BootstrapToken → Type 0
Counted id token n d =
    (token' : BootstrapToken) × (get id d ≡ some token')
    × (token'.uses ≡ token.uses + n)
    × (token'.max_uses ≡ token.max_uses)
    × (token.uses + n ≤ token.max_uses)

module _ (id : String) (token : BootstrapToken) (within : token.uses ≤ token.max_uses) where
  Counted-same : (d : Dict String BootstrapToken) → get id d ≡ some token → Counted id token 0 d
  Counted-same d found = (token, found, omega arith, refl, omega arith)

  Counted-other :
      (k : String) (other : BootstrapToken) (d : Dict String BootstrapToken)
      → get id d ≡ some token
      → (k == id) ≡ false
      → Counted id token 0 (put k other d)
  Counted-other k other d found apart =
      Counted-same (put k other d) (rw (get-put k id other d, apart) found)

  create_bootstrap_token-Counted :
      (h : Hashes) (a : EnrollmentAuthority) (ttl max_uses : ℕ) (scopes : List String)
      (secret k : String) (now : ℕ)
      → (k == id) ≡ false
      → get id a.tokens ≡ some token
      → Counted id token 0 (create_bootstrap_token h a ttl max_uses scopes secret k now).0.tokens
  unfolding create_bootstrap_token
  create_bootstrap_token-Counted h a ttl max_uses scopes secret k now apart found =
      elim (Bool-cases (leb ttl 0)) [
        | inl none_left ↦ rw (create_bootstrap_token, none_left) (Counted-same a.tokens found)
        | inr lasts ↦ elim (Bool-cases (leb max_uses 0)) [
          | inl never ↦ rw (create_bootstrap_token, lasts, never) (Counted-same a.tokens found)
          | inr useful ↦
              rw (create_bootstrap_token, lasts, useful) (Counted-other k _ a.tokens found apart)
        ]
      ]

  revoke_bootstrap_token-Counted :
      (a : EnrollmentAuthority) (k : String)
      → get id a.tokens ≡ some token
      → Counted id token 0 (revoke_bootstrap_token a k).0.tokens
  unfolding revoke_bootstrap_token
  revoke_bootstrap_token-Counted a k found = elim (Option-cases (get k a.tokens)) [
    | inl unknown ↦ rw (revoke_bootstrap_token, unknown) (Counted-same a.tokens found)
    | inr (other, known) ↦ elim (Bool-cases (k == id)) [
      | inr apart ↦ rw (revoke_bootstrap_token, known) (Counted-other k _ a.tokens found apart)
      | inl same ↦
          let is = some-injective other token (cc (known, found, (eq_iff k id).0 same)) in
          rw (revoke_bootstrap_token, known)
            (
              record other { is_withdrawn = true },
              rw (get-put k id (record other { is_withdrawn = true }) a.tokens, same) refl,
              rw is (omega arith),
              ap (λ t. t.max_uses) is,
              omega arith,
            )
    ]
  ]

  enroll-Counted :
      (a : EnrollmentAuthority) (used : BootstrapToken) (request : EnrollmentRequest)
      (i : NodeIdentity) (now : ℕ)
      → get id a.tokens ≡ some token
      → get request.bootstrap_token_id a.tokens ≡ some used
      → used.uses < used.max_uses
      → Counted id token
          (if request.bootstrap_token_id == id
            then if is_approval (enroll a used request i now).1 then 1 else 0
            else 0)
          (enroll a used request i now).0.tokens
  unfolding enroll record_decision
  enroll-Counted a used request i now found known unused =
      elim (Result-cases (register a.registry i).1) [
        | inl (e, raised) ↦ elim (Bool-cases (request.bootstrap_token_id == id)) [
          | inl same ↦ rw (enroll, raised, same) (Counted-same a.tokens found)
          | inr apart ↦ rw (enroll, raised, apart) (Counted-same a.tokens found)
        ]
        | inr (j, registered) ↦ elim (Bool-cases (request.bootstrap_token_id == id)) [
          | inr apart ↦
              rw (enroll, registered, apart)
                (Counted-other request.bootstrap_token_id (record used { uses = used.uses + 1 })
                  a.tokens found apart)
          | inl same ↦
              let next = record used { uses = used.uses + 1 } in
              let is =
                some-injective used token
                  (cc (known, found, (eq_iff request.bootstrap_token_id id).0 same)) in
              let room : token.uses < token.max_uses = rw is at unused in
              rw (enroll, registered, same)
                (
                  next,
                  rw (get-put request.bootstrap_token_id id next a.tokens, same) refl,
                  ap (λ t. t.uses + 1) is,
                  ap (λ t. t.max_uses) is,
                  omega (arith, room),
                )
        ]
      ]

  evaluate-Counted :
      (h : Hashes) (a : EnrollmentAuthority) (request : EnrollmentRequest) (fresh : String)
      (now : ℕ)
      → get id a.tokens ≡ some token
      → Counted id token
          (approval_in h a id (evaluates request fresh now))
          (evaluate h a request fresh now).0.tokens
  unfolding evaluate refusal decide_enrollment record_decision is_active
  evaluate-Counted h a request fresh now found =
      elim (Option-cases (get request.bootstrap_token_id a.tokens)) [
        | inl missing ↦ elim (Bool-cases (request.bootstrap_token_id == id)) [
          | inl same ↦ cc (missing, found, (eq_iff request.bootstrap_token_id id).0 same)
          | inr apart ↦ rw (evaluate, missing, apart) (Counted-same a.tokens found)
        ]
        | inr (used, known) ↦ elim (Option-cases (refusal h a (some used) request now)) [
          | inr (why, refused) ↦ elim (Bool-cases (request.bootstrap_token_id == id)) [
            | inl same ↦ rw (evaluate, known, refused, same) (Counted-same a.tokens found)
            | inr apart ↦ rw (evaluate, known, refused, apart) (Counted-same a.tokens found)
          ]
          | inl clear ↦ rw (evaluate-clear h a request fresh now used known clear) (
              enroll-Counted a used request (new_identity h request fresh now) now found known
                (let active = (refusal-none h a request fresh now used clear).1 in ground arith))
        ]
      ]

  step-Counted :
      (h : Hashes) (a : EnrollmentAuthority) (c : Call)
      → MakesNone id c
      → get id a.tokens ≡ some token
      → Counted id token (approval_in h a id c) (step h a c).tokens
  unfolding step
  step-Counted h a (creates_token ttl max_uses scopes secret k now) makes found =
      create_bootstrap_token-Counted h a ttl max_uses scopes secret k now makes found
  step-Counted h a (withdraws_token k) makes found = revoke_bootstrap_token-Counted a k found
  step-Counted h a (evaluates request fresh now) makes found =
      evaluate-Counted h a request fresh now found
  step-Counted h a (revokes k now) makes found = Counted-same a.tokens found
  step-Counted h a (restores k now) makes found = Counted-same a.tokens found
  step-Counted h a (quarantines k reason now) makes found = Counted-same a.tokens found
  step-Counted h a (registers i) makes found = Counted-same a.tokens found
  step-Counted h a (issues k ttl secret fresh now) makes found = Counted-same a.tokens found

-- A bootstrap token is stored within its limit. After any calls on the authority and its registry that
-- make no token under the same id it is stored still, its uses have grown by exactly the number of
-- requests naming it that `evaluate` approved in between, and with these they are within its limit: it
-- enrolls no more nodes than it may.
pub run-WithinUses :
    (h : Hashes) (a : EnrollmentAuthority) (cs : List Call) (id : String) (token : BootstrapToken)
    → get id a.tokens ≡ some token
    → token.uses ≤ token.max_uses
    → All (MakesNone id) cs
    → (token' : BootstrapToken) × (get id (run h a cs).tokens ≡ some token')
      × (token'.uses ≡ token.uses + approvals h a id cs)
      × (token'.max_uses ≡ token.max_uses)
      × (token.uses + approvals h a id cs ≤ token.max_uses)
unfolding run
run-WithinUses h a [] id token found within makes = Counted-same id token within a.tokens found
run-WithinUses h a (c ∷ cs) id token found within makes =
    let (t, stored, uses, most, room) = step-Counted id token within h a c makes.0 found in
    let (t', stored', uses', most', room') =
      run-WithinUses h (step h a c) cs id t stored (omega (arith, uses, most, room)) makes.1 in
    (t', stored', omega (arith, uses, uses'), most' ∙ most, omega (arith, uses, most, room'))
