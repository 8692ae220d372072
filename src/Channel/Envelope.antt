-- ===== src/Channel/Envelope.antt =====
-- secure_channel.py: SignedChannelEnvelope, its construction, canonical form and signature.
use Prim.Native.String.{◌++◌ as str_append}
use cyber_hive.Prelude.{
  leb, nat_beq, if◌then◌else◌, Eq, ◌==◌, nat_eq, string_eq, Result, ok, raise, ◌>>=◌, ◌>>◌,
  raise_if, is_empty, is_blank, ℕ, String, ◌≡◌, ◌↔◌, Bool, true, false, ◌||◌, Option, none, some,
  arith,
}

pub data ChannelDirection : Type 0 where
  node_to_controller controller_to_node : ChannelDirection

pub data ChannelPurpose : Type 0 where
  heartbeat action action_result ack error : ChannelPurpose

pub data SecureChannelError : Type 0 where
  session_token_required timestamp_not_aware node_id_required session_id_required :
      SecureChannelError
  sequence_not_positive expires_before_issued skew_negative age_not_positive : SecureChannelError

unfoldable pub direction_value : ChannelDirection → String
direction_value node_to_controller = "node_to_controller"
direction_value controller_to_node = "controller_to_node"

unfoldable pub purpose_value : ChannelPurpose → String
purpose_value heartbeat = "heartbeat"
purpose_value action = "action"
purpose_value action_result = "action_result"
purpose_value ack = "ack"
purpose_value error = "error"

abbrev pub direction_beq : ChannelDirection → ChannelDirection → Bool
direction_beq node_to_controller node_to_controller = true
direction_beq controller_to_node controller_to_node = true
direction_beq _ _ = false

abbrev purpose_tag : ChannelPurpose → ℕ
purpose_tag heartbeat = 0
purpose_tag action = 1
purpose_tag action_result = 2
purpose_tag ack = 3
purpose_tag error = 4

abbrev pub purpose_beq : ChannelPurpose → ChannelPurpose → Bool
purpose_beq a b = nat_beq (purpose_tag a) (purpose_tag b)

pub direction_beq_iff : (a b : ChannelDirection) → (direction_beq a b ≡ true) ↔ (a ≡ b)
direction_beq_iff a b = ground arith

pub purpose_beq_iff : (a b : ChannelPurpose) → (purpose_beq a b ≡ true) ↔ (a ≡ b)
purpose_beq_iff a b = ground arith

instance abbrev pub direction_eq : Eq ChannelDirection
direction_eq = record { beq = direction_beq; beq_iff = direction_beq_iff }

instance abbrev pub purpose_eq : Eq ChannelPurpose
purpose_eq = record { beq = purpose_beq; beq_iff = purpose_beq_iff }

-- a datetime with or without a time zone
pub data Stamp : Type 0 where
  aware naive : ℕ → Stamp

unfoldable pub validate_timestamp : Stamp → Result SecureChannelError ℕ
validate_timestamp (aware t) = ok t
validate_timestamp (naive t) = raise timestamp_not_aware

pub record SignedChannelEnvelope (J : Type 0) : Type 0 where
  pub node_id : String
  pub session_id : String
  pub direction : ChannelDirection
  pub purpose : ChannelPurpose
  pub sequence : ℕ
  pub payload : J
  pub issued_at : ℕ
  pub expires_at : Option ℕ
  pub correlation_id : Option String
  pub metadata : J
  pub signature : Option String
  pub id : String

-- the dictionary that is signed: everything but the signature
pub record SigningPayload (J : Type 0) : Type 0 where
  pub id : String
  pub node_id : String
  pub session_id : String
  pub direction : String
  pub purpose : String
  pub sequence : ℕ
  pub issued_at : ℕ
  pub expires_at : Option ℕ
  pub correlation_id : Option String
  pub payload : J
  pub metadata : J

-- json.dumps, hashlib and hmac, which the code imports
pub record Crypto (J : Type 0) : Type 0 where
  pub canonical_json : SigningPayload J → String
  pub sha256_hex : String → String
  pub sha256_digest : String → String
  pub hmac_sha256_hex : String → String → String

unfoldable pub token_key : {J : Type 0} → Crypto J → String → Result SecureChannelError String
token_key c session_token =
    if is_empty session_token
    then raise session_token_required
    else ok (c.sha256_digest session_token)

unfoldable pub validate_expiry : ℕ → Option Stamp → Result SecureChannelError (Option ℕ)
unfolding validate_timestamp
validate_expiry issued none = ok none
validate_expiry issued (some stamp) = do
  t ← validate_timestamp stamp
  if leb t issued then raise expires_before_issued else ok (some t)

-- the constructor call with `__post_init__`
unfoldable pub new_envelope :
    {J : Type 0}
    → String
    → String
    → ChannelDirection
    → ChannelPurpose
    → ℕ
    → J
    → Stamp
    → Option Stamp
    → Option String
    → J
    → Option String
    → String
    → Result SecureChannelError (SignedChannelEnvelope J)
unfolding is_blank validate_timestamp validate_expiry
new_envelope node_id session_id direction purpose sequence payload issued expires correlation
      metadata signature id =
    do
      raise_if (is_empty node_id || is_blank node_id) node_id_required
      raise_if (is_empty session_id || is_blank session_id) session_id_required
      raise_if (leb sequence 0) sequence_not_positive
      t ← validate_timestamp issued
      x ← validate_expiry t expires
      ok (record {
        node_id = node_id;
        session_id = session_id;
        direction = direction;
        purpose = purpose;
        sequence = sequence;
        payload = payload;
        issued_at = t;
        expires_at = x;
        correlation_id = correlation;
        metadata = metadata;
        signature = signature;
        id = id;
      })

module _ {J : Type 0} where
  unfoldable pub signing_payload : SignedChannelEnvelope J → SigningPayload J
  unfolding direction_value purpose_value
  signing_payload e = record {
    id = e.id;
    node_id = e.node_id;
    session_id = e.session_id;
    direction = direction_value e.direction;
    purpose = purpose_value e.purpose;
    sequence = e.sequence;
    issued_at = e.issued_at;
    expires_at = e.expires_at;
    correlation_id = e.correlation_id;
    payload = e.payload;
    metadata = e.metadata;
  }

  unfoldable pub canonical_payload : Crypto J → SignedChannelEnvelope J → String
  unfolding signing_payload
  canonical_payload c e = c.canonical_json (signing_payload e)

  unfoldable pub digest : Crypto J → SignedChannelEnvelope J → String
  unfolding canonical_payload
  digest c e = str_append "sha256:" (c.sha256_hex (canonical_payload c e))

  unfoldable pub with_signature : SignedChannelEnvelope J → String → SignedChannelEnvelope J
  with_signature e s = record e { signature = some s }

  unfoldable pub sign :
      Crypto J
      → SignedChannelEnvelope J
      → String
      → Result SecureChannelError (SignedChannelEnvelope J)
  unfolding token_key canonical_payload with_signature
  sign c e session_token = do
    key ← token_key c session_token
    ok (with_signature e (c.hmac_sha256_hex key (canonical_payload c e)))

  -- `hmac.compare_digest` is equality; the key is derived only if there is a signature
  unfoldable pub check_signature :
      Crypto J → SignedChannelEnvelope J → String → Option String → Result SecureChannelError Bool
  unfolding token_key canonical_payload
  check_signature c e session_token none = ok false
  check_signature c e session_token (some s) = if is_empty s then ok false else do
    key ← token_key c session_token
    ok (c.hmac_sha256_hex key (canonical_payload c e) == s)

  unfoldable pub verify_signature :
      Crypto J → SignedChannelEnvelope J → String → Result SecureChannelError Bool
  unfolding check_signature
  verify_signature c e session_token = check_signature c e session_token e.signature
