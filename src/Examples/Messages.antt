-- ===== src/Examples/Messages.antt =====
-- secure_channel.py at concrete inputs: a heartbeat, signed with a toy code, that is sent twice.
use Prim.Native.String.{◌++◌ as str_append}
use cyber_hive.Prelude.{
  if◌then◌else◌, Bool-cases, ◌==◌, nat_eq, string_eq, mem, ok, is_empty, is_space, is_blank, String,
  ◌≡◌, refl, ◌↔◌, inl, inr, true, false, none, some, [], ◌∷◌, arith,
}
use cyber_hive.Prelude.Dict.{get}
use cyber_hive.Channel.Envelope.{
  node_to_controller, heartbeat, direction_eq, purpose_eq, SignedChannelEnvelope, Crypto, token_key,
  signing_payload, canonical_payload, check_signature, verify_signature,
}
use cyber_hive.Channel.Guard.{
  is_accepted, key_eq, last_sequence, SecureChannel, mismatch, has_expired, session_invalid,
  Message, key_of, verification, append, screen, record_verification, check, after_replay,
  after_signature, after_screen, verify, verify_message, run,
}
use cyber_hive.Channel.Accepts.{
  accepts, Fresh, accepted_verification, accepted_channel, Acceptable, verify-Acceptable,
}
use cyber_hive.Channel.Replay.{verify-replayed}
use cyber_hive.Channel.Roundtrip.{HexDigests, Draft, build, IsComplete, signed, verify-build}

abbrev or_zero : String → String
or_zero s = if is_empty s then "00" else s

abbrev toy_crypto : Crypto String
toy_crypto = record {
  canonical_json =
      λ p. str_append p.id (str_append "/" (str_append p.node_id (str_append "/" p.payload)));
  sha256_hex = λ s. str_append "h" s;
  sha256_digest = λ s. str_append "k" s;
  hmac_sha256_hex = λ key message. or_zero (str_append key message);
}

toy_crypto-HexDigests : HexDigests toy_crypto
toy_crypto-HexDigests key message = elim (Bool-cases (is_empty (str_append key message))) [
  | inl e ↦ rw e refl
  | inr e ↦ rw (e, e)
]

abbrev beat : Draft String
beat = record {
  node_id = "edge-1";
  session_id = "ses_1";
  direction = node_to_controller;
  purpose = heartbeat;
  sequence = 1;
  payload = "alive";
  issued_at = 5000000;
  ttl_seconds = some 60;
  correlation_id = none;
  metadata = "";
  id = "msg_1";
}

abbrev signed_beat : SignedChannelEnvelope String
signed_beat = signed toy_crypto beat "token"

abbrev controller : SecureChannel String
controller = record {
  registry = some (λ session node token. session == "ses_1");
  replay_guard = record { sequences = []; accepted_digests = [] };
  max_clock_skew_seconds = 30;
  max_message_age_seconds = 300;
  journal = [];
}

abbrev beat_message : Message String
beat_message = record {
  envelope = signed_beat;
  token = "token";
  expected_direction = some node_to_controller;
  expected_purpose = none;
  current = 6000000;
  clock = 6000001;
}

beat-IsComplete : IsComplete beat "token"
unfolding is_blank is_space
beat-IsComplete = record {
  node_id = refl;
  session_id = refl;
  sequence = omega arith;
  has_token = refl;
}

beat-Fresh : Fresh toy_crypto controller.replay_guard signed_beat
unfolding last_sequence get mem
beat-Fresh = record { newer = omega arith; new_digest = refl }

verify-Acceptable_example :
    (accepts (verify toy_crypto controller signed_beat "token" none none 6000000 6000001).1 ≡ true)
    ↔ Acceptable toy_crypto controller signed_beat "token" none none 6000000
verify-Acceptable_example =
    verify-Acceptable toy_crypto controller signed_beat "token" none none 6000000 6000001

verify-build_example :
    (build toy_crypto beat "token" ≡ ok signed_beat)
    × (verify toy_crypto controller signed_beat "token"
          (some node_to_controller)
          (some heartbeat)
          6000000
          6000001
        ≡ (
          accepted_channel toy_crypto controller signed_beat 6000001,
          ok (accepted_verification toy_crypto controller signed_beat 6000001),
        ))
verify-build_example =
    verify-build toy_crypto toy_crypto-HexDigests beat "token" controller 6000000 6000001
      beat-IsComplete (omega arith) (omega arith) (omega arith) refl beat-Fresh

beat-accepted : accepts (verify_message toy_crypto controller beat_message).1 ≡ true
unfolding verify_message verify screen mismatch has_expired session_invalid after_screen
    after_signature after_replay record_verification append verification verify_signature
    check_signature token_key canonical_payload signing_payload check last_sequence key_of get mem
    is_accepted
beat-accepted = refl

verify-replayed_example :
    accepts
      (verify_message toy_crypto
        (run toy_crypto (verify_message toy_crypto controller beat_message).0 (beat_message ∷ []))
        beat_message).1
    ≡ false
verify-replayed_example =
    verify-replayed toy_crypto controller beat_message beat_message (beat_message ∷ [])
      beat-accepted refl (omega arith)
