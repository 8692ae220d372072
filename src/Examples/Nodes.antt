-- ===== src/Examples/Nodes.antt =====
-- node_identity.py at concrete inputs: a node that enrolls, and is quarantined or revoked.
use Prim.Native.String.{◌++◌ as str_append}
use cyber_hive.Prelude.{
  string_eq, nat_eq, keep, mem, ok, is_ok, is_space, ◌+◌, ◌≤◌, ◌≡◌, refl, ◌↔◌, Bool, true, false,
  none, some, List, [], ◌∷◌, map, arith,
}
use cyber_hive.Prelude.Dict.{get, put}
use cyber_hive.Plan.Metadata.{end, set_field}
use cyber_hive.Identity.{
  enrolled, Hashes, lstrip, rstrip, strip, ends_line, splitlines, normalize_public_key,
  public_key_fingerprint, canonical_enrollment_payload, compute_enrollment_proof, BootstrapToken,
  EnrollmentRequest, is_active, has_scope, proves, NodeIdentity, revoke_identity,
}
use cyber_hive.Identity.Registry.{
  NodeIdentityRegistry, register, revoke, quarantine, restore, new_session, issue_session,
  verify_session,
}
use cyber_hive.Identity.Enrollment.{
  is_approval, EnrollmentAuthority, create_bootstrap_token, build_request, record_decision,
  new_identity, refusal, enroll, decide_enrollment, evaluate, Call, creates_token, evaluates,
  restores, issues, step, run,
}
use cyber_hive.Identity.Enrollment.Tokens.{Admissible, evaluate-Admissible}
use cyber_hive.Identity.Enrollment.Revoked.{run-revoked, quarantine-restores}
use cyber_hive.Identity.Enrollment.Uses.{approvals, run-WithinUses}

abbrev toy_hashes : Hashes
toy_hashes = record {
  sha256_hex = λ s. str_append "h" s;
  sha256_digest = λ s. str_append "d" s;
  hmac_sha256_hex = λ key s. str_append key s;
}

abbrev start : EnrollmentAuthority
start = record {
  registry = record { by_node_id = []; by_fingerprint = []; sessions = [] };
  tokens = [];
  decisions = [];
}

abbrev joining : EnrollmentRequest
joining =
    build_request toy_hashes "edge-1" " key\n" "bt_1" "secret" ("data.move" ∷ []) end end "nonce"
      "enr_1" 2000000

abbrev opening : List Call
opening =
    creates_token 900 1 ("node.enroll" ∷ []) "secret" "bt_1" 1000000
    ∷ evaluates joining "nid_1" 2000000
    ∷ evaluates joining "nid_2" 3000000
    ∷ issues "edge-1" 900 "token" "ses_1" 4000000
    ∷ []

-- the token under "bt_1" as it is made
abbrev fresh_token : BootstrapToken
fresh_token = record {
  id = "bt_1";
  secret_digest = "dsecret";
  scopes = "node.enroll" ∷ [];
  expires_at = 901000000;
  max_uses = 1;
  uses = 0;
  created_at = 1000000;
  is_withdrawn = false;
}

abbrev with_token : EnrollmentAuthority
with_token = record start { tokens = ("bt_1", fresh_token) ∷ [] }

abbrev joins_twice : List Call
joins_twice = evaluates joining "nid_1" 2000000 ∷ evaluates joining "nid_2" 3000000 ∷ []

run-WithinUses_example :
    (token' : BootstrapToken) × (get "bt_1" (run toy_hashes with_token joins_twice).tokens
      ≡ some token')
    × (token'.uses ≡ 0 + approvals toy_hashes with_token "bt_1" joins_twice)
    × (token'.max_uses ≡ 1)
    × (0 + approvals toy_hashes with_token "bt_1" joins_twice ≤ 1)
unfolding get
run-WithinUses_example =
    run-WithinUses toy_hashes with_token joins_twice "bt_1" fresh_token refl (omega arith)
      (tt, (tt, tt))

evaluate-Admissible_example :
    (is_approval (evaluate toy_hashes start joining "nid_1" 2000000).1 ≡ true)
    ↔ Admissible toy_hashes start joining 2000000
evaluate-Admissible_example = evaluate-Admissible toy_hashes start joining "nid_1" 2000000

abbrev edge : NodeIdentity
edge = record {
  node_id = "edge-1";
  public_key_fingerprint = "sha256:hkey";
  trust_state = enrolled;
  capabilities = [];
  labels = end;
  metadata = end;
  id = "nid_1";
  enrolled_at = 2000000;
  updated_at = 2000000;
  revoked_at = none;
  quarantine_reason = none;
}

abbrev joined : EnrollmentAuthority
joined = record {
  registry = record {
    by_node_id = ("edge-1", edge) ∷ [];
    by_fingerprint = ("sha256:hkey", "edge-1") ∷ [];
    sessions = [];
  };
  tokens = [];
  decisions = [];
}

edge_revoked : (revoke joined.registry "edge-1" 5000000).1 ≡ ok (revoke_identity edge 5000000)
unfolding revoke get
edge_revoked = refl

abbrev after_revocation : List Call
after_revocation = restores "edge-1" 6000000 ∷ issues "edge-1" 900 "token" "ses_2" 7000000 ∷ []

run-revoked_example :
    verify_session toy_hashes
      (run toy_hashes
        (record joined { registry = (revoke joined.registry "edge-1" 5000000).0 })
        after_revocation).registry
      "ses_2"
      "edge-1"
      "token"
      8000000
    ≡ false
run-revoked_example =
    run-revoked toy_hashes joined "edge-1" 5000000 (revoke_identity edge 5000000) after_revocation
      edge_revoked (tt, (tt, tt)) "ses_2" "token" 8000000

-- the registry in which the node is revoked
abbrev lost : NodeIdentityRegistry
lost = record joined.registry { by_node_id = ("edge-1", revoke_identity edge 5000000) ∷ [] }

lost_found : get "edge-1" lost.by_node_id ≡ some (revoke_identity edge 5000000)
unfolding get
lost_found = refl

quarantine-restores_example :
    let g' = (restore (quarantine lost "edge-1" "odd" 5000000).0 "edge-1" 6000000).0 in
    ((i' : NodeIdentity) × ((restore (quarantine lost "edge-1" "odd" 5000000).0 "edge-1" 6000000).1
        ≡ ok i')
      × (i'.trust_state ≡ enrolled))
    × (is_ok (issue_session toy_hashes g' "edge-1" 900 "token" "ses_3" 6000000).1 ≡ true)
quarantine-restores_example =
    quarantine-restores toy_hashes lost "edge-1" "odd" "token" "ses_3" 900 5000000 6000000
      (revoke_identity edge 5000000) lost_found

-- the one use of the token enrolls the node, the second is denied
abbrev statuses : List Bool
statuses = map is_approval (run toy_hashes start opening).decisions

statuses_lem : statuses ≡ true ∷ false ∷ []
unfolding run step create_bootstrap_token evaluate refusal decide_enrollment enroll record_decision
    register new_identity issue_session new_session has_scope is_active proves mem get put
    build_request compute_enrollment_proof canonical_enrollment_payload public_key_fingerprint
    normalize_public_key strip lstrip rstrip splitlines ends_line is_space keep set_field
statuses_lem = refl
