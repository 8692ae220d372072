-- ===== src/Channel/Guard.antt =====
-- secure_channel.py: ReplayGuard, SecureChannel and `verify`.
use Prim.Native.Nat.{max}
use cyber_hive.Prelude.{
  ltb, leb, if◌then◌else◌, Eq, ◌==◌, nat_eq, string_eq, mem, Result, ok, raise, ◌>>=◌, ℕ, ◌+◌, ◌*◌,
  String, ◌≡◌, ◌↔◌, Bool, true, false, ◌&&◌, not, Option, none, some, List, [], ◌∷◌, ◌++◌, arith,
  eq_iff,
}
use cyber_hive.Prelude.Dict.{Dict, get, put}
use cyber_hive.Channel.Envelope.{
  ChannelDirection, ChannelPurpose, SecureChannelError, age_not_positive, direction_beq_iff,
  purpose_beq_iff, direction_eq, purpose_eq, Stamp, aware, SignedChannelEnvelope, Crypto,
  new_envelope, digest, sign, verify_signature,
}

pub data ChannelDecision : Type 0 where
  accept deny duplicate stale : ChannelDecision

pub record ChannelVerification : Type 0 where
  pub status : ChannelDecision
  pub envelope_id : String
  pub node_id : String
  pub reason : String
  pub findings : List String
  pub accepted_at : ℕ

unfoldable pub is_accepted : ChannelVerification → Bool
is_accepted v = elim v.status [ accept ↦ true | _ ↦ false ]

pub record Key : Type 0 where
  pub session_id : String
  pub direction : ChannelDirection
  pub purpose : ChannelPurpose

abbrev pub key_beq : Key → Key → Bool
key_beq a b =
    (a.session_id == b.session_id) && ((a.direction == b.direction) && (a.purpose == b.purpose))

pub key_beq_iff : (a b : Key) → (key_beq a b ≡ true) ↔ (a ≡ b)
key_beq_iff a b = ground (
  arith,
  eq_iff a.session_id b.session_id,
  direction_beq_iff a.direction b.direction,
  purpose_beq_iff a.purpose b.purpose,
)

instance abbrev pub key_eq : Eq Key
key_eq = record { beq = key_beq; beq_iff = key_beq_iff }

pub record ReplayGuard : Type 0 where
  pub sequences : Dict Key ℕ
  pub accepted_digests : List String

-- `dict.get(key, 0)`
unfoldable pub last_sequence : ReplayGuard → Key → ℕ
last_sequence g k = elim (get k g.sequences) [ none ↦ 0 | some n ↦ n ]

pub record SecureChannel (J : Type 0) : Type 0 where
  pub registry : Option (String → String → String → Bool)
  pub replay_guard : ReplayGuard
  pub max_clock_skew_seconds : ℕ
  pub max_message_age_seconds : ℕ
  pub journal : List ChannelVerification

abbrev pub second : ℕ
second = 1000000

-- A refusal before the signature is looked at: the status, the reason and the finding.
abbrev pub Refusal : Type 0
Refusal = Option (ChannelDecision × String × String)

unfoldable pub mismatch {ℓ} : {A : Type ℓ} ⦃q : Eq A⦄ → Option A → A → Bool
mismatch none a = false
mismatch (some b) a = not (a == b)

unfoldable pub has_expired : Option ℕ → ℕ → Bool
has_expired none current = false
has_expired (some t) current = leb t current

unfoldable pub session_invalid :
    {J : Type 0}
    → Option (String → String → String → Bool)
    → SignedChannelEnvelope J
    → String
    → Bool
session_invalid none e token = false
session_invalid (some verify_session) e token = not (verify_session e.session_id e.node_id token)

-- `SecureChannel.__init__`; a negative skew, which raises, is no number of the model
unfoldable pub new_channel :
    {J : Type 0}
    → Option (String → String → String → Bool)
    → Option ReplayGuard
    → ℕ
    → ℕ
    → Result SecureChannelError (SecureChannel J)
new_channel registry guard skew age =
    if leb age 0
    then raise age_not_positive
    else ok (record {
      registry = registry;
      replay_guard = elim guard [
        | none ↦ record { sequences = []; accepted_digests = [] }
        | some g ↦ g
      ];
      max_clock_skew_seconds = skew;
      max_message_age_seconds = age;
      journal = [];
    })

abbrev pub Reply : Type 0
Reply = Result SecureChannelError ChannelVerification

-- `ttl_seconds` of 0 or None is no expiry
unfoldable pub expiry_of : ℕ → Option ℕ → Option Stamp
expiry_of current none = none
expiry_of current (some ttl) = if ttl == 0 then none else some (aware (current + second * ttl))

-- One call of `verify`.
pub record Message (J : Type 0) : Type 0 where
  pub envelope : SignedChannelEnvelope J
  pub token : String
  pub expected_direction : Option ChannelDirection
  pub expected_purpose : Option ChannelPurpose
  pub current : ℕ
  pub clock : ℕ

module _ {J : Type 0} where
  unfoldable pub key_of : SignedChannelEnvelope J → Key
  key_of e = record { session_id = e.session_id; direction = e.direction; purpose = e.purpose }

  unfoldable pub verification :
      SignedChannelEnvelope J → ChannelDecision → String → List String → ℕ → ChannelVerification
  verification e status reason findings clock = record {
    status = status;
    envelope_id = e.id;
    node_id = e.node_id;
    reason = reason;
    findings = findings;
    accepted_at = clock;
  }

  unfoldable pub append : SecureChannel J → ChannelVerification → SecureChannel J
  append ch v = record ch { journal = ch.journal ++ v ∷ [] }

  -- The tests of `verify` that stand above the signature, in their order.
  unfoldable pub screen :
      SecureChannel J
      → SignedChannelEnvelope J
      → String
      → Option ChannelDirection
      → Option ChannelPurpose
      → ℕ
      → Refusal
  unfolding mismatch has_expired session_invalid
  screen ch e token expected_direction expected_purpose current =
      if mismatch expected_direction e.direction
      then some (deny, "unexpected message direction", "direction-mismatch")
      else if mismatch expected_purpose e.purpose
      then some (deny, "unexpected message purpose", "purpose-mismatch")
      else if ltb (current + second * ch.max_clock_skew_seconds) e.issued_at
      then some (deny, "message timestamp is too far in the future", "clock-skew")
      else if ltb (e.issued_at + second * ch.max_message_age_seconds) current
      then some (stale, "message is older than allowed age", "stale-message")
      else if has_expired e.expires_at current
      then some (stale, "message expired", "expired-message")
      else if session_invalid ch.registry e token
      then some (deny, "session verification failed", "invalid-session")
      else none

  unfoldable pub record_verification :
      SecureChannel J
      → SignedChannelEnvelope J
      → ChannelDecision
      → String
      → List String
      → ℕ
      → SecureChannel J × Reply
  unfolding append verification
  record_verification ch e status reason findings clock =
      let v = verification e status reason findings clock in (append ch v, ok v)

module _ {J : Type 0} (c : Crypto J) where
  unfoldable pub check : ReplayGuard → SignedChannelEnvelope J → ℕ → Option ChannelVerification
  unfolding key_of last_sequence verification
  check g e clock =
      if leb e.sequence (last_sequence g (key_of e))
      then some (
          verification e duplicate "sequence is not newer than last accepted message"
            ("replay-sequence" ∷ []) clock)
      else if mem (digest c e) g.accepted_digests
      then some (
          verification e duplicate "message digest was already accepted" ("replay-digest" ∷ [])
            clock)
      else none

  unfoldable pub accept_envelope : ReplayGuard → SignedChannelEnvelope J → ReplayGuard
  unfolding key_of last_sequence
  accept_envelope g e = record {
    sequences = put (key_of e) (max (last_sequence g (key_of e)) e.sequence) g.sequences;
    accepted_digests = digest c e ∷ g.accepted_digests;
  }

  unfoldable pub after_replay :
      SecureChannel J
      → SignedChannelEnvelope J
      → ℕ
      → Option ChannelVerification
      → SecureChannel J × Reply
  unfolding append accept_envelope record_verification
  after_replay ch e clock (some replay) = (append ch replay, ok replay)
  after_replay ch e clock none =
      record_verification (record ch { replay_guard = accept_envelope ch.replay_guard e }) e accept
        "message accepted" [] clock

  unfoldable pub after_signature :
      SecureChannel J
      → SignedChannelEnvelope J
      → ℕ
      → Result SecureChannelError Bool
      → SecureChannel J × Reply
  unfolding record_verification after_replay
  after_signature ch e clock (raise x) = (ch, raise x)
  after_signature ch e clock (ok false) =
      record_verification ch e deny "signature verification failed" ("invalid-signature" ∷ []) clock
  after_signature ch e clock (ok true) = after_replay ch e clock (check ch.replay_guard e clock)

  unfoldable pub after_screen :
      SecureChannel J → SignedChannelEnvelope J → String → ℕ → Refusal → SecureChannel J × Reply
  unfolding record_verification after_signature
  after_screen ch e token clock (some (status, reason, finding)) =
      record_verification ch e status reason (finding ∷ []) clock
  after_screen ch e token clock none = after_signature ch e clock (verify_signature c e token)

  -- `current` is `now or _now()`; `clock` is the time at which the reply is made.
  unfoldable pub verify :
      SecureChannel J
      → SignedChannelEnvelope J
      → String
      → Option ChannelDirection
      → Option ChannelPurpose
      → ℕ
      → ℕ
      → SecureChannel J × Reply
  unfolding after_screen
  verify ch e token expected_direction expected_purpose current clock =
      after_screen ch e token clock (screen ch e token expected_direction expected_purpose current)

  unfoldable pub build_envelope :
      String
      → String
      → ChannelDirection
      → ChannelPurpose
      → ℕ
      → J
      → String
      → ℕ
      → Option ℕ
      → Option String
      → J
      → String
      → Result SecureChannelError (SignedChannelEnvelope J)
  unfolding expiry_of new_envelope sign
  build_envelope node_id session_id direction purpose sequence payload token current ttl correlation
        metadata id =
      do
        e ←
            new_envelope node_id session_id direction purpose sequence payload (aware current)
              (expiry_of current ttl) correlation metadata none id
        sign c e token

  unfoldable pub verify_message : SecureChannel J → Message J → SecureChannel J × Reply
  verify_message ch m =
      verify ch m.envelope m.token m.expected_direction m.expected_purpose m.current m.clock

  unfoldable pub run : SecureChannel J → List (Message J) → SecureChannel J
  run ch [] = ch
  run ch (m ∷ ms) = run (verify_message ch m).0 ms
