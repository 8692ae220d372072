-- ===== src/Channel/Accepts.antt =====
-- secure_channel.py: the messages that `verify` accepts, and the others.
use cyber_hive.Prelude.{
  Option-cases, Eq, nat_eq, string_eq, mem, Result, ok, raise, ℕ, ◌+◌, ◌*◌, ◌≤◌, ◌<◌, String, ◌≡◌,
  refl, ◌≢◌, ◌↔◌, inl, inr, Bool, true, false, Option, none, some, [], ◌∷◌, ◌++◌, arith,
}
use cyber_hive.Channel.Envelope.{
  ChannelDirection, ChannelPurpose, SecureChannelError, direction_eq, purpose_eq,
  SignedChannelEnvelope, Crypto, digest, verify_signature,
}
use cyber_hive.Channel.Guard.{
  ChannelDecision, accept, ChannelVerification, is_accepted, key_eq, ReplayGuard, last_sequence,
  SecureChannel, second, Refusal, mismatch, has_expired, session_invalid, Reply, key_of,
  verification, screen, check, accept_envelope, after_signature, after_screen, verify,
}

abbrev pub accepts : Reply → Bool
accepts (ok v) = is_accepted v
accepts (raise x) = false

abbrev pub Expected {ℓ} : {A : Type ℓ} → Option A → A → Type ℓ
Expected none a = Unit
Expected (some b) a = a ≡ b

abbrev pub NotExpired : Option ℕ → ℕ → Type 0
NotExpired none current = Unit
NotExpired (some t) current = current < t

module _ {J : Type 0} where
  abbrev pub InSession :
      Option (String → String → String → Bool) → SignedChannelEnvelope J → String → Type 0
  InSession none e token = Unit
  InSession (some verify_session) e token = verify_session e.session_id e.node_id token ≡ true

  -- Direction, purpose, age, expiry and session are as the caller and the channel ask.
  pub record Screened (ch : SecureChannel J) (e : SignedChannelEnvelope J) (token : String)
      (expected_direction : Option ChannelDirection) (expected_purpose : Option ChannelPurpose)
      (current : ℕ) : Type 0 where
    pub direction : Expected expected_direction e.direction
    pub purpose : Expected expected_purpose e.purpose
    pub not_ahead : e.issued_at ≤ current + second * ch.max_clock_skew_seconds
    pub not_old : current ≤ e.issued_at + second * ch.max_message_age_seconds
    pub not_expired : NotExpired e.expires_at current
    pub session : InSession ch.registry e token

mismatch-Expected {ℓ} :
    {A : Type ℓ} ⦃q : Eq A⦄ (o : Option A) (a : A) → mismatch o a ≡ false → Expected o a
unfolding mismatch
mismatch-Expected none a h = tt
mismatch-Expected ⦃q⦄ (some b) a h = (q.beq_iff a b).0 (ground arith)

Expected-mismatch {ℓ} :
    {A : Type ℓ} ⦃q : Eq A⦄ (o : Option A) (a : A) → Expected o a → mismatch o a ≡ false
unfolding mismatch
Expected-mismatch none a h = refl
Expected-mismatch ⦃q⦄ (some b) a h = rw ((q.beq_iff a b).1 h)

has_expired-NotExpired :
    (o : Option ℕ) (current : ℕ) → (has_expired o current ≡ false) ↔ NotExpired o current
unfolding has_expired
has_expired-NotExpired none current = ((λ h. tt), (λ h. refl))
has_expired-NotExpired (some t) current = ((λ h. ground arith), (λ h. ground arith))

module _ {J : Type 0} (ch : SecureChannel J) (e : SignedChannelEnvelope J) (token : String) where
  session_invalid-InSession :
      (o : Option (String → String → String → Bool))
      → (session_invalid o e token ≡ false) ↔ InSession o e token
  unfolding session_invalid
  session_invalid-InSession none = ((λ h. tt), (λ h. refl))
  session_invalid-InSession (some f) = ((λ h. ground arith), (λ h. ground arith))

  module _ (d : Option ChannelDirection) (p : Option ChannelPurpose) (current : ℕ) where
    screen-Screened : screen ch e token d p current ≡ none → Screened ch e token d p current
    unfolding screen
    screen-Screened h = record {
      direction = mismatch-Expected d e.direction (ground arith);
      purpose = mismatch-Expected p e.purpose (ground arith);
      not_ahead = ground arith;
      not_old = ground arith;
      not_expired = (has_expired-NotExpired e.expires_at current).0 (ground arith);
      session = (session_invalid-InSession ch.registry).0 (ground arith);
    }

    Screened-screen : Screened ch e token d p current → screen ch e token d p current ≡ none
    unfolding screen
    Screened-screen s =
        rw
          (
            Expected-mismatch d e.direction s.direction,
            Expected-mismatch p e.purpose s.purpose,
            (has_expired-NotExpired e.expires_at current).1 s.not_expired,
            (session_invalid-InSession ch.registry).1 s.session,
          )
          (ground (arith, s.not_ahead, s.not_old))

-- The sequence is newer than the last accepted one of its key, and the digest is new.
pub record Fresh {J : Type 0} (c : Crypto J) (g : ReplayGuard) (e : SignedChannelEnvelope J)
    : Type 0 where
  pub newer : last_sequence g (key_of e) < e.sequence
  pub new_digest : mem (digest c e) g.accepted_digests ≡ false

module _ {J : Type 0} (c : Crypto J) (ch : SecureChannel J) (e : SignedChannelEnvelope J) where
  check-Fresh : (clock : ℕ) → check c ch.replay_guard e clock ≡ none → Fresh c ch.replay_guard e
  unfolding check
  check-Fresh clock h = record { newer = ground arith; new_digest = ground arith }

  Fresh-check : (clock : ℕ) → Fresh c ch.replay_guard e → check c ch.replay_guard e clock ≡ none
  unfolding check
  Fresh-check clock f = ground (arith, f.newer, f.new_digest)

  pub check-refuses :
      (clock : ℕ) (v : ChannelVerification)
      → check c ch.replay_guard e clock ≡ some v
      → is_accepted v ≡ false
  unfolding check is_accepted
  check-refuses clock v h = ground arith

  -- What `verify` does with an envelope that it accepts.
  abbrev pub accepted_verification : ℕ → ChannelVerification
  accepted_verification clock = verification e accept "message accepted" [] clock

  abbrev pub accepted_channel : ℕ → SecureChannel J
  accepted_channel clock = record ch {
    replay_guard = accept_envelope c ch.replay_guard e;
    journal = ch.journal ++ accepted_verification clock ∷ [];
  }

  pub record Acceptable (token : String) (d : Option ChannelDirection) (p : Option ChannelPurpose)
      (current : ℕ) : Type 0 where
    pub screened : Screened ch e token d p current
    pub signed : verify_signature c e token ≡ ok true
    pub fresh : Fresh c ch.replay_guard e

  module _ (token : String) (d : Option ChannelDirection) (p : Option ChannelPurpose)
      (current clock : ℕ) where
    pub Acceptable-verify :
        Acceptable token d p current
        → verify c ch e token d p current clock
          ≡ (accepted_channel clock, ok (accepted_verification clock))
    unfolding verify
    Acceptable-verify a =
        rw (Screened-screen ch e token d p current a.screened, a.signed, Fresh-check clock a.fresh)

    pub screen-refuses :
        (s : ChannelDecision) (why finding : String)
        → screen ch e token d p current ≡ some (s, why, finding)
        → s ≢ accept
    unfolding screen
    screen-refuses s why finding h a = ground arith

    accepts-after_signature :
        (s : Result SecureChannelError Bool)
        → accepts (after_signature c ch e clock s).1 ≡ true
        → (s ≡ ok true) × (check c ch.replay_guard e clock ≡ none)
    unfolding after_signature is_accepted
    accepts-after_signature (raise x) h = cc
    accepts-after_signature (ok false) h = cc
    accepts-after_signature (ok true) h = elim (Option-cases (check c ch.replay_guard e clock)) [
      | inl none_found ↦ (refl, none_found)
      | inr (v, found) ↦ cc (check-refuses clock v found, rw found at h)
    ]

    accepts-screen :
        (o : Refusal)
        → screen ch e token d p current ≡ o
        → accepts (after_screen c ch e token clock o).1 ≡ true
        → (o ≡ none)
          × (verify_signature c e token ≡ ok true)
          × (check c ch.replay_guard e clock ≡ none)
    unfolding after_screen is_accepted
    accepts-screen none found h =
        let (s, f) = accepts-after_signature (verify_signature c e token) h in (refl, s, f)
    accepts-screen (some (s, why, finding)) found h =
        absurd (screen-refuses s why finding found (ground arith))

    -- `verify` accepts exactly when direction and purpose are as expected, the time stamps are in the
    -- window and not expired, the registry confirms the session, the signature verifies, and the
    -- sequence and the digest are new.
    pub verify-Acceptable :
        (accepts (verify c ch e token d p current clock).1 ≡ true) ↔ Acceptable token d p current
    verify-Acceptable = (forth, back)
      where
        forth :
            accepts (verify c ch e token d p current clock).1 ≡ true → Acceptable token d p current
        forth h =
            let (s, g, f) =
              accepts-screen (screen ch e token d p current) refl (unfold verify in h) in
            record {
              screened = screen-Screened ch e token d p current s;
              signed = g;
              fresh = check-Fresh clock f;
            }

        back :
            Acceptable token d p current → accepts (verify c ch e token d p current clock).1 ≡ true
        back a = rw (Acceptable-verify a) (unfold is_accepted verification in refl)
