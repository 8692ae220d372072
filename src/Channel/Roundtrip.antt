-- ===== src/Channel/Roundtrip.antt =====
-- secure_channel.py: what `build_envelope` signs, `verify` accepts.
use cyber_hive.Prelude.{
  if◌then◌else◌, ◌==◌, nat_eq, string_eq, Result, ok, is_empty, is_blank, ℕ, ◌+◌, ◌*◌, ◌≤◌, ◌<◌,
  String, ◌≡◌, refl, true, false, ◌||◌, Option, none, some, arith, eq_refl,
}
use cyber_hive.Channel.Envelope.{
  ChannelDirection, ChannelPurpose, SecureChannelError, direction_eq, purpose_eq,
  validate_timestamp, SignedChannelEnvelope, Crypto, validate_expiry, signing_payload,
  canonical_payload, with_signature, verify_signature,
}
use cyber_hive.Channel.Guard.{key_eq, SecureChannel, second, verify, build_envelope}
use cyber_hive.Channel.Accepts.{
  NotExpired, InSession, Fresh, accepted_verification, accepted_channel, Acceptable-verify,
}

-- The signature is no part of what is signed.
pub signing_payload-with_signature :
    {J : Type 0} (e : SignedChannelEnvelope J) (s : String)
    → signing_payload (with_signature e s) ≡ signing_payload e
unfolding signing_payload with_signature
signing_payload-with_signature e s = refl

-- A hexadecimal digest is never the empty text.
abbrev pub HexDigests : {J : Type 0} → Crypto J → Type 0
HexDigests c = (key message : String) → is_empty (c.hmac_sha256_hex key message) ≡ false

-- The arguments of `build_envelope`.
pub record Draft (J : Type 0) : Type 0 where
  pub node_id : String
  pub session_id : String
  pub direction : ChannelDirection
  pub purpose : ChannelPurpose
  pub sequence : ℕ
  pub payload : J
  pub issued_at : ℕ
  pub ttl_seconds : Option ℕ
  pub correlation_id : Option String
  pub metadata : J
  pub id : String

abbrev pub build :
    {J : Type 0} → Crypto J → Draft J → String → Result SecureChannelError (SignedChannelEnvelope J)
build c d token =
    build_envelope c d.node_id d.session_id d.direction d.purpose d.sequence d.payload token
      d.issued_at d.ttl_seconds d.correlation_id d.metadata d.id

abbrev pub expires_at : ℕ → Option ℕ → Option ℕ
expires_at issued none = none
expires_at issued (some ttl) = if ttl == 0 then none else some (issued + second * ttl)

-- the envelope that is signed
abbrev pub unsigned : {J : Type 0} → Draft J → SignedChannelEnvelope J
unsigned d = record {
  node_id = d.node_id;
  session_id = d.session_id;
  direction = d.direction;
  purpose = d.purpose;
  sequence = d.sequence;
  payload = d.payload;
  issued_at = d.issued_at;
  expires_at = expires_at d.issued_at d.ttl_seconds;
  correlation_id = d.correlation_id;
  metadata = d.metadata;
  signature = none;
  id = d.id;
}

-- The draft has identifiers that are not blank, a sequence, and there is a token.
pub record IsComplete {J : Type 0} (d : Draft J) (token : String) : Type 0 where
  pub node_id : (is_empty d.node_id || is_blank d.node_id) ≡ false
  pub session_id : (is_empty d.session_id || is_blank d.session_id) ≡ false
  pub sequence : 0 < d.sequence
  pub has_token : is_empty token ≡ false

module _ {J : Type 0} (c : Crypto J) where
  -- the draft under its signature
  abbrev pub signed : Draft J → String → SignedChannelEnvelope J
  signed d token = record (unsigned d) {
    signature = some (c.hmac_sha256_hex (c.sha256_digest token) (canonical_payload c (unsigned d)));
  }

  pub build-IsComplete :
      (d : Draft J) (token : String) → IsComplete d token → build c d token ≡ ok (signed d token)
  unfolding build_envelope validate_timestamp validate_expiry
  build-IsComplete d token w =
      rw (w.node_id, w.session_id) (ground (arith, w.sequence, w.has_token))

  verify_signature-signed :
      HexDigests c
      → (d : Draft J) (token : String) → IsComplete d token
      → verify_signature c (signed d token) token ≡ ok true
  unfolding verify_signature
  verify_signature-signed hex d token w = rw (hex, w.has_token, eq_refl)

  -- Within its time window and for a session that the registry confirms, a draft whose sequence and
  -- digest are new is built, and `verify`, expecting its direction and purpose, accepts what was built
  -- and records it: the guard takes it in and the journal ends in the acceptance.
  pub verify-build :
      HexDigests c
      → (d : Draft J) (token : String) (ch : SecureChannel J) (current clock : ℕ)
      → IsComplete d token
      → d.issued_at ≤ current + second * ch.max_clock_skew_seconds
      → current ≤ d.issued_at + second * ch.max_message_age_seconds
      → NotExpired (expires_at d.issued_at d.ttl_seconds) current
      → InSession ch.registry (signed d token) token
      → Fresh c ch.replay_guard (signed d token)
      → (build c d token ≡ ok (signed d token))
        × (verify c ch (signed d token) token (some d.direction) (some d.purpose) current clock ≡ (
          accepted_channel c ch (signed d token) clock,
          ok (accepted_verification c ch (signed d token) clock),
        ))
  verify-build hex d token ch current clock w ahead old live session fresh = (
    build-IsComplete d token w,
    Acceptable-verify c ch (signed d token) token (some d.direction) (some d.purpose) current clock
        (record {
          screened = record {
            direction = refl;
            purpose = refl;
            not_ahead = ahead;
            not_old = old;
            not_expired = live;
            session = session;
          };
          signed = verify_signature-signed hex d token w;
          fresh = fresh;
        }),
  )
