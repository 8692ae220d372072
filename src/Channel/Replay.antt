-- ===== src/Channel/Replay.antt =====
-- secure_channel.py: what `verify` changes, and that no message is accepted twice.
use Prim.Native.Nat.{max}
use cyber_hive.Prelude.Dict.{get-put}
use cyber_hive.Channel.Accepts.{accepts, check-refuses, screen-refuses, verify-Acceptable}
use cyber_hive.Prelude.{
  if◌then◌else◌, nat_eq, string_eq, Result, ok, raise, ℕ, ◌≤◌, String, ◌≡◌, refl, Bool, true, false,
  Option, none, some, List, [], ◌∷◌, ◌++◌, arith,
}
use cyber_hive.Channel.Envelope.{
  ChannelDirection, ChannelPurpose, SecureChannelError, direction_eq, purpose_eq,
  SignedChannelEnvelope, Crypto, verify_signature,
}
use cyber_hive.Channel.Guard.{
  accept, ChannelVerification, is_accepted, Key, key_beq_iff, key_eq, ReplayGuard, last_sequence,
  SecureChannel, Refusal, Reply, Message, key_of, screen, check, accept_envelope, after_replay,
  after_signature, after_screen, verify, verify_message, run,
}

-- The guard moves only when the answer accepts; the answer is the new end of the journal.
abbrev pub Records :
    {J : Type 0}
    → Crypto J
    → SecureChannel J
    → SignedChannelEnvelope J
    → SecureChannel J × Reply
    → Type 0
Records c ch e (after, raise x) = after ≡ ch
Records c ch e (after, ok v) =
    (after.journal ≡ ch.journal ++ v ∷ [])
    × (after.registry ≡ ch.registry)
    × (after.max_clock_skew_seconds ≡ ch.max_clock_skew_seconds)
    × (after.max_message_age_seconds ≡ ch.max_message_age_seconds)
    × (after.replay_guard
        ≡ (if is_accepted v then accept_envelope c ch.replay_guard e else ch.replay_guard))

module _ {J : Type 0} (c : Crypto J) (ch : SecureChannel J) (e : SignedChannelEnvelope J) where
  after_replay-Records :
      (clock : ℕ) (o : Option ChannelVerification)
      → check c ch.replay_guard e clock ≡ o
      → Records c ch e (after_replay c ch e clock o)
  unfolding after_replay is_accepted
  after_replay-Records clock (some v) found =
      rw (check-refuses c ch e clock v found) (refl, refl, refl, refl, refl)
  after_replay-Records clock none found = (refl, refl, refl, refl, refl)

  after_signature-Records :
      (clock : ℕ) (s : Result SecureChannelError Bool)
      → Records c ch e (after_signature c ch e clock s)
  unfolding after_signature is_accepted
  after_signature-Records clock (raise x) = refl
  after_signature-Records clock (ok false) = (refl, refl, refl, refl, refl)
  after_signature-Records clock (ok true) =
      after_replay-Records clock (check c ch.replay_guard e clock) refl

  module _ (token : String) (d : Option ChannelDirection) (p : Option ChannelPurpose)
      (current clock : ℕ) where
    after_screen-Records :
        (o : Refusal)
        → screen ch e token d p current ≡ o
        → Records c ch e (after_screen c ch e token clock o)
    unfolding after_screen is_accepted
    after_screen-Records none found = after_signature-Records clock (verify_signature c e token)
    after_screen-Records (some (accept, why, finding)) found =
        absurd (screen-refuses c ch e token d p current clock accept why finding found refl)
    after_screen-Records (some (s, why, finding)) found = (refl, refl, refl, refl, refl)

    -- An exception of `verify` changes nothing. Else its answer is added to the journal, the limits
    -- and the registry stay, and the replay guard takes the envelope in exactly if it was accepted:
    -- no refused message can advance a sequence.
    pub verify-Records : Records c ch e (verify c ch e token d p current clock)
    unfolding verify
    verify-Records = after_screen-Records (screen ch e token d p current) refl

last_sequence-accept_envelope :
    {J : Type 0} (c : Crypto J) (g : ReplayGuard) (e : SignedChannelEnvelope J) (k : Key)
    → (last_sequence g k ≤ last_sequence (accept_envelope c g e) k)
      × (k ≡ key_of e → e.sequence ≤ last_sequence (accept_envelope c g e) k)
unfolding accept_envelope last_sequence
last_sequence-accept_envelope c g e k =
    let new = max (last_sequence g (key_of e)) e.sequence in
    let found = get-put (key_of e) k new g.sequences in
    (
      ground (arith, found, key_beq_iff (key_of e) k),
      λ h. ground (arith, found, key_beq_iff (key_of e) k),
    )

module _ {J : Type 0} (c : Crypto J) where
  last_sequence-Records :
      (ch : SecureChannel J) (e : SignedChannelEnvelope J) (k : Key) (r : SecureChannel J × Reply)
      → Records c ch e r
      → (last_sequence ch.replay_guard k ≤ last_sequence r.0.replay_guard k)
        × (accepts r.1 ≡ true → k ≡ key_of e → e.sequence ≤ last_sequence r.0.replay_guard k)
  last_sequence-Records ch e k (after, raise x) same = (rw same (omega arith), λ a. cc)
  last_sequence-Records ch e k (after, ok v) t =
      rw t.4 (ground (arith, last_sequence-accept_envelope c ch.replay_guard e k))

  last_sequence-run :
      (ch : SecureChannel J) (ms : List (Message J)) (k : Key)
      → last_sequence ch.replay_guard k ≤ last_sequence (run c ch ms).replay_guard k
  unfolding run verify_message
  last_sequence-run ch [] k = omega arith
  last_sequence-run ch (m ∷ ms) k =
      let step = last_sequence-Records ch m.envelope k _ (
        verify-Records c ch m.envelope m.token m.expected_direction m.expected_purpose m.current
          m.clock) in
      omega (arith, step.0, last_sequence-run (verify_message c ch m).0 ms k)

  -- Once a message is accepted, no message of its session, direction and purpose whose sequence is
  -- not greater is accepted again, after any further messages and with any token, time or payload.
  pub verify-replayed :
      (ch : SecureChannel J) (m n : Message J) (between : List (Message J))
      → accepts (verify_message c ch m).1 ≡ true
      → key_of n.envelope ≡ key_of m.envelope
      → n.envelope.sequence ≤ m.envelope.sequence
      → accepts (verify_message c (run c (verify_message c ch m).0 between) n).1 ≡ false
  unfolding verify_message
  verify-replayed ch m n between accepted same_key not_newer =
      go (accepts (verify_message c (run c after between) n).1) refl
    where
      after : SecureChannel J
      after = (verify_message c ch m).0

      seen :
          m.envelope.sequence ≤ last_sequence (run c after between).replay_guard (key_of n.envelope)
      seen = omega (
        arith,
        (last_sequence-Records ch m.envelope (key_of n.envelope) _ (
              verify-Records c ch m.envelope m.token m.expected_direction m.expected_purpose
                m.current m.clock)).1
            accepted same_key,
        last_sequence-run after between (key_of n.envelope),
      )

      go : (b : Bool) → accepts (verify_message c (run c after between) n).1 ≡ b → b ≡ false
      go false h = refl
      go true h =
          let a =
            (verify-Acceptable c (run c after between) n.envelope n.token n.expected_direction
                n.expected_purpose n.current n.clock).0
              h in
          absurd (omega (arith, a.fresh.newer, seen))
