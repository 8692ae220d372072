-- ===== src/Identity/Enrollment.antt =====
-- node_identity.py: EnrollmentAuthority.
pub mod Revoked
pub mod Tokens
pub mod Uses
use Prim.Native.String.{◌++◌ as str_append}
use cyber_hive.Prelude.{
  leb, if◌then◌else◌, is_some, string_eq, nat_eq, is_nil, Result, ok, raise, ℕ, ◌+◌, ◌*◌, String,
  Bool, true, false, not, Option, none, some, List, [], ◌∷◌, ◌++◌,
}
use cyber_hive.Prelude.Dict.{Dict, get, put}
use cyber_hive.Plan.Metadata.{text, Fields, set_field}
use cyber_hive.Identity.{
  enrolled, EnrollmentStatus, approved, denied, EnrollmentError, ttl_not_positive,
  max_uses_not_positive, node_id_taken, unknown_token, Hashes, second, public_key_fingerprint,
  compute_enrollment_proof, BootstrapToken, EnrollmentRequest, is_active, has_scope, proves,
  NodeIdentity,
}
use cyber_hive.Identity.Registry.{
  NodeIdentityRegistry, register, revoke, quarantine, restore, issue_session,
}

pub record EnrollmentDecision : Type 0 where
  pub status : EnrollmentStatus
  pub request_id : String
  pub reason : String
  pub identity : Option NodeIdentity
  pub required_approvals : List String
  pub findings : List String
  pub decided_at : ℕ

abbrev pub is_approval : EnrollmentDecision → Bool
is_approval d = elim d.status [ approved ↦ true | _ ↦ false ]

pub record EnrollmentAuthority : Type 0 where
  pub registry : NodeIdentityRegistry
  pub tokens : Dict String BootstrapToken
  pub decisions : List EnrollmentDecision

-- `digest` is that of the drawn secret.
unfoldable pub create_bootstrap_token :
    Hashes
    → EnrollmentAuthority
    → ℕ
    → ℕ
    → List String
    → String
    → String
    → ℕ
    → EnrollmentAuthority × Result EnrollmentError BootstrapToken
create_bootstrap_token h a ttl max_uses scopes secret id now =
    if leb ttl 0
    then (a, raise ttl_not_positive)
    else if leb max_uses 0
    then (a, raise max_uses_not_positive)
    else let token : BootstrapToken = record {
      id = id;
      secret_digest = h.sha256_digest secret;
      scopes = scopes;
      expires_at = now + second * ttl;
      max_uses = max_uses;
      uses = 0;
      created_at = now;
      is_withdrawn = false;
    } in
      (record a { tokens = put id token a.tokens }, ok token)

unfoldable pub revoke_bootstrap_token :
    EnrollmentAuthority → String → EnrollmentAuthority × Result EnrollmentError (Unit {0})
revoke_bootstrap_token a id = elim (get id a.tokens) [
  | none ↦ (a, raise (unknown_token id))
  | some token ↦
      (record a { tokens = put id (record token { is_withdrawn = true }) a.tokens }, ok tt)
]

unfoldable pub build_request :
    Hashes
    → String
    → String
    → String
    → String
    → List String
    → Fields
    → Fields
    → String
    → String
    → ℕ
    → EnrollmentRequest
unfolding compute_enrollment_proof
build_request h node_id public_key token_id secret capabilities labels metadata nonce id now =
    record {
      proposed_node_id = node_id;
      public_key = public_key;
      bootstrap_token_id = token_id;
      nonce = nonce;
      proof = compute_enrollment_proof h node_id public_key nonce token_id secret;
      capabilities = capabilities;
      labels = labels;
      metadata = metadata;
      requested_by = "node";
      id = id;
      created_at = now;
    }

unfoldable pub record_decision :
    EnrollmentAuthority
    → EnrollmentStatus
    → String
    → String
    → Option NodeIdentity
    → List String
    → ℕ
    → EnrollmentAuthority × EnrollmentDecision
record_decision a status request_id reason identity findings now =
    let d : EnrollmentDecision = record {
      status = status;
      request_id = request_id;
      reason = reason;
      identity = identity;
      required_approvals = [];
      findings = findings;
      decided_at = now;
    } in
    (record a { decisions = a.decisions ++ d ∷ [] }, d)

-- `str` of the two exceptions of `register`
abbrev pub message : EnrollmentError → String
message (node_id_taken node_id) = str_append "node id already enrolled: " node_id
message _ = "public key fingerprint is already enrolled for another node"

unfoldable pub new_identity : Hashes → EnrollmentRequest → String → ℕ → NodeIdentity
unfolding public_key_fingerprint set_field
new_identity h request id now = record {
  node_id = request.proposed_node_id;
  public_key_fingerprint = public_key_fingerprint h request.public_key;
  trust_state = enrolled;
  capabilities = request.capabilities;
  labels = request.labels;
  metadata = set_field "enrollment_request_id" (text request.id) request.metadata;
  id = id;
  enrolled_at = now;
  updated_at = now;
  revoked_at = none;
  quarantine_reason = none;
}

-- The first test of `evaluate` above the registration that fails.
unfoldable pub refusal :
    Hashes → EnrollmentAuthority → Option BootstrapToken → EnrollmentRequest → ℕ → Option String
unfolding has_scope is_active proves
refusal h a none request now = some "unknown bootstrap token"
refusal h a (some token) request now =
    if not (has_scope token "node.enroll")
    then some "bootstrap token lacks node.enroll scope"
    else if not (is_active token now)
    then some "bootstrap token is expired, exhausted or revoked"
    else if not (proves h token request)
    then some "invalid enrollment proof"
    else if is_some (get request.proposed_node_id a.registry.by_node_id)
    then some "node id already enrolled"
    else none

-- registration, and the use of the token that it counts
unfoldable pub enroll :
    EnrollmentAuthority
    → BootstrapToken
    → EnrollmentRequest
    → NodeIdentity
    → ℕ
    → EnrollmentAuthority × EnrollmentDecision
unfolding record_decision
enroll a token request identity now =
    let (registry, reply) = register a.registry identity in
    elim reply [
      | raise e ↦ record_decision a denied request.id (message e) none [] now
      | ok _ ↦
          let used = record token { uses = token.uses + 1 } in
          record_decision
            (record a {
              registry = registry;
              tokens = put request.bootstrap_token_id used a.tokens;
            })
            approved request.id "node enrolled" (some identity)
            (if is_nil request.capabilities
              then "node enrolled with no declared capabilities" ∷ []
              else [])
            now
    ]

unfoldable pub decide_enrollment :
    Hashes
    → EnrollmentAuthority
    → Option BootstrapToken
    → EnrollmentRequest
    → String
    → ℕ
    → Option String
    → EnrollmentAuthority × EnrollmentDecision
unfolding record_decision enroll new_identity
decide_enrollment h a token request id now (some why) =
    record_decision a denied request.id why none [] now
decide_enrollment h a none request id now none = record_decision a denied request.id "" none [] now
decide_enrollment h a (some token) request id now none =
    enroll a token request (new_identity h request id now) now

-- `id` is the fresh identifier of the identity.
unfoldable pub evaluate :
    Hashes
    → EnrollmentAuthority
    → EnrollmentRequest
    → String
    → ℕ
    → EnrollmentAuthority × EnrollmentDecision
unfolding refusal decide_enrollment
evaluate h a request id now =
    let token = get request.bootstrap_token_id a.tokens in
    decide_enrollment h a token request id now (refusal h a token request now)

-- One call on the authority or on its registry.
pub data Call : Type 0 where
  creates_token : ℕ → ℕ → List String → String → String → ℕ → Call
  withdraws_token : String → Call
  evaluates : EnrollmentRequest → String → ℕ → Call
  revokes restores : String → ℕ → Call
  quarantines : String → String → ℕ → Call
  registers : NodeIdentity → Call
  issues : String → ℕ → String → String → ℕ → Call

unfoldable pub step : Hashes → EnrollmentAuthority → Call → EnrollmentAuthority
step h a (creates_token ttl max_uses scopes secret id now) =
    (create_bootstrap_token h a ttl max_uses scopes secret id now).0
step h a (withdraws_token id) = (revoke_bootstrap_token a id).0
step h a (evaluates request id now) = (evaluate h a request id now).0
step h a (revokes node_id now) = record a { registry = (revoke a.registry node_id now).0 }
step h a (restores node_id now) = record a { registry = (restore a.registry node_id now).0 }
step h a (quarantines node_id reason now) = record a {
  registry = (quarantine a.registry node_id reason now).0;
}
step h a (registers i) = record a { registry = (register a.registry i).0 }
step h a (issues node_id ttl token id now) = record a {
  registry = (issue_session h a.registry node_id ttl token id now).0;
}

unfoldable pub run : Hashes → EnrollmentAuthority → List Call → EnrollmentAuthority
run h a [] = a
run h a (c ∷ cs) = run h (step h a c) cs
