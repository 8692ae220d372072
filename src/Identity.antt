-- ===== src/Identity.antt =====
-- node_identity.py: public keys, bootstrap tokens, enrollment requests, identities and sessions. hashlib
-- and hmac are a parameter; secrets and identifiers that the code draws at random are arguments.
pub mod Registry
pub mod Enrollment
use Prim.Native.Char.{code}
use Prim.Native.String.{◌++◌ as str_append}
use Prim.Native.String
use cyber_hive.Prelude.{
  ltb, leb, nat_beq, if◌then◌else◌, string_eq, nat_eq, ◌==◌, keep, mem, Result, ok, raise, is_empty,
  is_space, ℕ, String, Bool, true, false, ◌&&◌, ◌||◌, not, Option, none, some, List, [], ◌∷◌, map,
}
use cyber_hive.Plan.Metadata.{Fields}

pub data TrustState : Type 0 where
  pending enrolled quarantined revoked : TrustState

abbrev pub is_enrolled : TrustState → Bool
is_enrolled enrolled = true
is_enrolled _ = false

abbrev pub is_revoked : TrustState → Bool
is_revoked revoked = true
is_revoked _ = false

pub data EnrollmentStatus : Type 0 where
  approved denied pending_approval : EnrollmentStatus

pub data EnrollmentError : Type 0 where
  cannot_restore fingerprint_taken ttl_not_positive max_uses_not_positive : EnrollmentError
  node_id_taken unknown_node not_allowed unknown_token : String → EnrollmentError

pub record Hashes : Type 0 where
  pub sha256_hex : String → String
  pub sha256_digest : String → String
  pub hmac_sha256_hex : String → String → String

abbrev pub second : ℕ
second = 1000000

-- `str.lstrip`, `str.rstrip` and `str.strip`
unfoldable pub lstrip : String → String
unfolding is_space
lstrip String.[] = ""
lstrip (String.◌∷◌ c s) = let rest = lstrip s in if is_space (code c) then rest else String.◌∷◌ c s

unfoldable pub rstrip : String → String
unfolding is_space
rstrip String.[] = ""
rstrip (String.◌∷◌ c s) =
    let rest = rstrip s in if is_space (code c) && is_empty rest then "" else String.◌∷◌ c rest

unfoldable pub strip : String → String
unfolding lstrip rstrip
strip s = lstrip (rstrip s)

-- the line boundaries of `str.splitlines`
unfoldable pub ends_line : ℕ → Bool
ends_line c =
    (leb 10 c && leb c 13)
    || (leb 28 c && leb c 30)
    || nat_beq c 0x85
    || nat_beq c 0x2028
    || nat_beq c 0x2029

-- a character at the front of the first line
abbrev pub onto : String → List String → List String
onto c [] = c ∷ []
onto c (line ∷ lines) = str_append c line ∷ lines

-- `str.splitlines`, with empty lines more than it has, which the caller drops
unfoldable pub splitlines : String → List String
unfolding ends_line
splitlines String.[] = []
splitlines (String.◌∷◌ c s) =
    let rest = splitlines s in if ends_line (code c) then "" ∷ rest else onto (String.◌∷◌ c "") rest

abbrev pub join_lines : List String → String
join_lines [] = ""
join_lines (line ∷ []) = line
join_lines (line ∷ lines) = str_append line (str_append "\n" (join_lines lines))

unfoldable pub normalize_public_key : String → String
unfolding strip splitlines
normalize_public_key public_key =
    join_lines (keep (λ line. not (is_empty line)) (map strip (splitlines (strip public_key))))

unfoldable pub public_key_fingerprint : Hashes → String → String
unfolding normalize_public_key
public_key_fingerprint h public_key =
    str_append "sha256:" (h.sha256_hex (normalize_public_key public_key))

unfoldable pub canonical_enrollment_payload : Hashes → String → String → String → String → String
unfolding public_key_fingerprint strip
canonical_enrollment_payload h node_id public_key nonce token_id =
    join_lines
      (strip node_id ∷ public_key_fingerprint h public_key ∷ strip nonce ∷ strip token_id ∷ [])

unfoldable pub compute_enrollment_proof :
    Hashes → String → String → String → String → String → String
unfolding canonical_enrollment_payload
compute_enrollment_proof h node_id public_key nonce token_id secret =
    h.hmac_sha256_hex (h.sha256_digest secret)
      (canonical_enrollment_payload h node_id public_key nonce token_id)

pub record BootstrapToken : Type 0 where
  pub id : String
  pub secret_digest : String
  pub scopes : List String
  pub expires_at : ℕ
  pub max_uses : ℕ
  pub uses : ℕ
  pub created_at : ℕ
  pub is_withdrawn : Bool

pub record EnrollmentRequest : Type 0 where
  pub proposed_node_id : String
  pub public_key : String
  pub bootstrap_token_id : String
  pub nonce : String
  pub proof : String
  pub capabilities : List String
  pub labels : Fields
  pub metadata : Fields
  pub requested_by : String
  pub id : String
  pub created_at : ℕ

unfoldable pub is_active : BootstrapToken → ℕ → Bool
is_active token now =
    not token.is_withdrawn && (ltb token.uses token.max_uses && ltb now token.expires_at)

unfoldable pub has_scope : BootstrapToken → String → Bool
has_scope token scope = mem scope token.scopes

-- `BootstrapToken.verify`
unfoldable pub proves : Hashes → BootstrapToken → EnrollmentRequest → Bool
unfolding canonical_enrollment_payload
proves h token request =
    h.hmac_sha256_hex token.secret_digest (
      canonical_enrollment_payload h request.proposed_node_id request.public_key request.nonce
        request.bootstrap_token_id)
    == request.proof

pub record NodeIdentity : Type 0 where
  pub node_id : String
  pub public_key_fingerprint : String
  pub trust_state : TrustState
  pub capabilities : List String
  pub labels : Fields
  pub metadata : Fields
  pub id : String
  pub enrolled_at : ℕ
  pub updated_at : ℕ
  pub revoked_at : Option ℕ
  pub quarantine_reason : Option String

unfoldable pub revoke_identity : NodeIdentity → ℕ → NodeIdentity
revoke_identity i now = record i { trust_state = revoked; revoked_at = some now; updated_at = now }

unfoldable pub quarantine_identity : NodeIdentity → String → ℕ → NodeIdentity
quarantine_identity i reason now = record i {
  trust_state = quarantined;
  quarantine_reason = some reason;
  updated_at = now;
}

unfoldable pub restore_identity : NodeIdentity → ℕ → Result EnrollmentError NodeIdentity
restore_identity i now =
    if is_revoked i.trust_state
    then raise cannot_restore
    else ok (record i { trust_state = enrolled; quarantine_reason = none; updated_at = now })

pub record NodeSessionGrant : Type 0 where
  pub id : String
  pub node_id : String
  pub token_hash : String
  pub issued_at : ℕ
  pub expires_at : ℕ
  pub capabilities : List String
  pub identity_id : String

-- `NodeSessionGrant.verify`
unfoldable pub confirms : Hashes → NodeSessionGrant → String → ℕ → Bool
confirms h grant token now = ltb now grant.expires_at && (grant.token_hash == h.sha256_hex token)
