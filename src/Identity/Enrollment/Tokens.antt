-- ===== src/Identity/Enrollment/Tokens.antt =====
-- node_identity.py: what an approval of `evaluate` rests on, and how often a token is used.
use cyber_hive.Prelude.{
  Option-cases, string_eq, nat_eq, mem, is_ok, Result-cases, ℕ, ◌<◌, String, ◌≡◌, refl, ◌↔◌, inl,
  inr, true, false, not, none, some, arith,
}
use cyber_hive.Prelude.Dict.{get}
use cyber_hive.Identity.{
  Hashes, public_key_fingerprint, BootstrapToken, EnrollmentRequest, is_active, has_scope, proves,
  NodeIdentity,
}
use cyber_hive.Identity.Registry.{NodeIdentityRegistry, owned_by_other, register}
use cyber_hive.Identity.Enrollment.{
  is_approval, EnrollmentAuthority, record_decision, new_identity, refusal, enroll,
  decide_enrollment, evaluate,
}

-- The request may enroll: its token is stored, has the scope, is neither withdrawn nor used up nor
-- expired, and proves the request; the node is new and the key is not another node's.
pub record Admissible (h : Hashes) (a : EnrollmentAuthority) (request : EnrollmentRequest) (now : ℕ)
    : Type 0 where
  pub token : BootstrapToken
  pub found : get request.bootstrap_token_id a.tokens ≡ some token
  pub in_scope : mem "node.enroll" token.scopes ≡ true
  pub standing : token.is_withdrawn ≡ false
  pub unused : token.uses < token.max_uses
  pub running : now < token.expires_at
  pub proof : proves h token request ≡ true
  pub new_node : get request.proposed_node_id a.registry.by_node_id ≡ none
  pub own_key :
      owned_by_other
        (get (public_key_fingerprint h request.public_key) a.registry.by_fingerprint)
        request.proposed_node_id
      ≡ false

register-fresh :
    (g : NodeIdentityRegistry) (i : NodeIdentity)
    → get i.node_id g.by_node_id ≡ none
    → is_ok (register g i).1
      ≡ not (owned_by_other (get i.public_key_fingerprint g.by_fingerprint) i.node_id)
unfolding register
register-fresh g i free = rw (register, free) (ground arith)

enroll-approval :
    (a : EnrollmentAuthority) (token : BootstrapToken) (request : EnrollmentRequest)
    (i : NodeIdentity) (now : ℕ)
    → is_approval (enroll a token request i now).1 ≡ is_ok (register a.registry i).1
unfolding enroll record_decision
enroll-approval a token request i now = elim (Result-cases (register a.registry i).1) [
  | inl (e, raised) ↦ rw (enroll, raised) refl
  | inr (i', registered) ↦ rw (enroll, registered) refl
]

module _ (h : Hashes) (a : EnrollmentAuthority) (request : EnrollmentRequest) (id : String)
    (now : ℕ) where
  pub refusal-none :
      (token : BootstrapToken)
      → refusal h a (some token) request now ≡ none
      → (has_scope token "node.enroll" ≡ true)
        × (is_active token now ≡ true)
        × (proves h token request ≡ true)
        × (get request.proposed_node_id a.registry.by_node_id ≡ none)
  unfolding refusal
  refusal-none token e = (ground arith, ground arith, ground arith, ground arith)

  none-refusal :
      (token : BootstrapToken)
      → mem "node.enroll" token.scopes ≡ true
      → is_active token now ≡ true
      → proves h token request ≡ true
      → get request.proposed_node_id a.registry.by_node_id ≡ none
      → refusal h a (some token) request now ≡ none
  unfolding refusal has_scope
  none-refusal token s t p n = rw (refusal, s, t, p, n) refl

  approval-missing :
      get request.bootstrap_token_id a.tokens ≡ none
      → is_approval (evaluate h a request id now).1 ≡ false
  unfolding evaluate refusal decide_enrollment record_decision
  approval-missing missing = rw (evaluate, missing) refl

  approval-refused :
      (token : BootstrapToken) (why : String)
      → get request.bootstrap_token_id a.tokens ≡ some token
      → refusal h a (some token) request now ≡ some why
      → is_approval (evaluate h a request id now).1 ≡ false
  unfolding evaluate decide_enrollment record_decision
  approval-refused token why found refused = rw (evaluate, found, refused) refl

  pub evaluate-clear :
      (token : BootstrapToken)
      → get request.bootstrap_token_id a.tokens ≡ some token
      → refusal h a (some token) request now ≡ none
      → evaluate h a request id now ≡ enroll a token request (new_identity h request id now) now
  unfolding evaluate decide_enrollment
  evaluate-clear token found clear = rw (evaluate, found, clear) refl

  approval-clear :
      (token : BootstrapToken)
      → get request.bootstrap_token_id a.tokens ≡ some token
      → refusal h a (some token) request now ≡ none
      → is_approval (evaluate h a request id now).1
        ≡ not (
            owned_by_other
              (get (public_key_fingerprint h request.public_key) a.registry.by_fingerprint)
              request.proposed_node_id)
  unfolding new_identity
  approval-clear token found clear =
      rw
        (
          evaluate-clear token found clear,
          enroll-approval a token request (new_identity h request id now) now,
          register-fresh a.registry (new_identity h request id now) (refusal-none token clear).3,
        )
        refl

  -- `evaluate` approves exactly the admissible requests.
  pub evaluate-Admissible :
      (is_approval (evaluate h a request id now).1 ≡ true) ↔ Admissible h a request now
  evaluate-Admissible = (forth, back)
    where
      forth : is_approval (evaluate h a request id now).1 ≡ true → Admissible h a request now
      forth e = elim (Option-cases (get request.bootstrap_token_id a.tokens)) [
        | inl missing ↦ cc (e, approval-missing missing)
        | inr (token, found) ↦ elim (Option-cases (refusal h a (some token) request now)) [
          | inr (why, refused) ↦ cc (e, approval-refused token why found refused)
          | inl clear ↦
              let (scoped, active, proved, fresh) = refusal-none token clear in
              let own = approval-clear token found clear in
              unfold has_scope is_active in
              record {
                token = token;
                found = found;
                in_scope = scoped;
                standing = ground arith;
                unused = ground arith;
                running = ground arith;
                proof = proved;
                new_node = fresh;
                own_key = ground arith;
              }
        ]
      ]

      back : Admissible h a request now → is_approval (evaluate h a request id now).1 ≡ true
      back v =
          rw
            (
              approval-clear v.token v.found (
                  none-refusal v.token v.in_scope
                    (unfold is_active in ground (arith, v.standing, v.unused, v.running)) v.proof
                    v.new_node),
              v.own_key,
            )
            refl
