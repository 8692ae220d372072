-- ===== src/Identity/Registry/Sessions.antt =====
-- node_identity.py: the sessions that `verify_session` confirms.
use mathlib.Core.Path.{subst}
use cyber_hive.Prelude.{
  Bool-cases, Option-cases, string_eq, nat_eq, ◌==◌, ℕ, ◌<◌, String, ◌≡◌, sym, ◌↔◌, inl, inr, true,
  false, none, some, [], ◌∷◌, arith, eq_iff,
}
use cyber_hive.Prelude.Dict.{Dict, get, put, Each, Each-get}
use cyber_hive.Identity.{is_enrolled, Hashes, NodeIdentity, quarantine_identity, NodeSessionGrant}
use cyber_hive.Identity.Registry.{
  NodeIdentityRegistry, drop_sessions, quarantine, restore, verify_session,
}

-- The session was issued to this node with this token, runs at `now`, and the identity that it was
-- issued to is still the node's and trusted.
pub record IsLive (h : Hashes) (g : NodeIdentityRegistry) (session_id node_id token : String)
    (now : ℕ) : Type 0 where
  pub grant : NodeSessionGrant
  pub found : get session_id g.sessions ≡ some grant
  pub of_node : grant.node_id ≡ node_id
  pub running : now < grant.expires_at
  pub with_token : grant.token_hash ≡ h.sha256_hex token
  pub identity : NodeIdentity
  pub known : get node_id g.by_node_id ≡ some identity
  pub same_identity : identity.id ≡ grant.identity_id
  pub trusted : is_enrolled identity.trust_state ≡ true

-- `verify_session` confirms exactly the sessions that are stored for the node, run at `now`, carry the
-- hash of the token, and were issued to the identity that the node has now and that is enrolled.
pub verify_session-IsLive :
    (h : Hashes) (g : NodeIdentityRegistry) (session_id node_id token : String) (now : ℕ)
    → (verify_session h g session_id node_id token now ≡ true)
      ↔ IsLive h g session_id node_id token now
unfolding verify_session
verify_session-IsLive h g session_id node_id token now = (forth, back)
  where
    back :
        IsLive h g session_id node_id token now
        → verify_session h g session_id node_id token now ≡ true
    back v =
        rw (v.found, v.known, verify_session)
          (ground (
            arith,
            v.running,
            v.trusted,
            (eq_iff v.grant.node_id node_id).1 v.of_node,
            (eq_iff v.grant.token_hash (h.sha256_hex token)).1 v.with_token,
            (eq_iff v.identity.id v.grant.identity_id).1 v.same_identity,
          ))

    forth :
        verify_session h g session_id node_id token now ≡ true
        → IsLive h g session_id node_id token now
    forth e = elim (Option-cases (get session_id g.sessions)) [
      | inl missing ↦ cc (rw (verify_session, missing) at e)
      | inr (grant, found) ↦ elim (Option-cases (get node_id g.by_node_id)) [
        | inl missing ↦ absurd (ground arith)
        | inr (i, known) ↦ record {
          grant = grant;
          found = found;
          of_node = (eq_iff grant.node_id node_id).0 (ground arith);
          running = ground arith;
          with_token = (eq_iff grant.token_hash (h.sha256_hex token)).0 (ground arith);
          identity = i;
          known = known;
          same_identity = (eq_iff i.id grant.identity_id).0 (ground arith);
          trusted = ground arith;
        }
      ]
    ]

-- no session of this node is stored
abbrev pub NoSession : String → NodeIdentityRegistry → Type 0
NoSession node_id g = Each (λ id grant. (grant.node_id == node_id) ≡ false) g.sessions

drop_sessions-NoSession :
    (node_id : String) (d : Dict String NodeSessionGrant)
    → Each (λ id grant. (grant.node_id == node_id) ≡ false) (drop_sessions node_id d)
unfolding drop_sessions
drop_sessions-NoSession node_id [] = tt
drop_sessions-NoSession node_id ((id, grant) ∷ d) = elim (Bool-cases (grant.node_id == node_id)) [
  | inl mine ↦ rw mine (drop_sessions-NoSession node_id d)
  | inr other ↦ rw other (other, drop_sessions-NoSession node_id d)
]

NoSession-refused :
    (h : Hashes) (g : NodeIdentityRegistry) (session_id node_id token : String) (now : ℕ)
    → NoSession node_id g
    → verify_session h g session_id node_id token now ≡ false
NoSession-refused h g session_id node_id token now none_left =
    elim (Bool-cases (verify_session h g session_id node_id token now)) [
      | inr refused ↦ refused
      | inl confirmed ↦
          let v = (verify_session-IsLive h g session_id node_id token now).0 confirmed in
          cc (
            Each-get (λ id grant. (grant.node_id == node_id) ≡ false) session_id v.grant g.sessions
                none_left v.found,
            (eq_iff v.grant.node_id node_id).1 v.of_node,
          )
    ]

unknown-refused :
    (h : Hashes) (g : NodeIdentityRegistry) (session_id node_id token : String) (now : ℕ)
    → get node_id g.by_node_id ≡ none
    → verify_session h g session_id node_id token now ≡ false
unknown-refused h g session_id node_id token now unknown =
    elim (Bool-cases (verify_session h g session_id node_id token now)) [
      | inr refused ↦ refused
      | inl confirmed ↦
          cc (((verify_session-IsLive h g session_id node_id token now).0 confirmed).known, unknown)
    ]

sessions-restore :
    (g : NodeIdentityRegistry) (node_id : String) (now : ℕ)
    → (restore g node_id now).0.sessions ≡ g.sessions
unfolding restore
sessions-restore g node_id now = ground arith

by_node_id-restore_unknown :
    (g : NodeIdentityRegistry) (node_id : String) (now : ℕ)
    → get node_id g.by_node_id ≡ none
    → get node_id (restore g node_id now).0.by_node_id ≡ none
unfolding restore
by_node_id-restore_unknown g node_id now unknown = rw (restore, unknown) unknown

-- Quarantine ends every session of a node: after it none is confirmed, whatever the token and the time,
-- also when the identity was restored in between; a node that is not known has none that are confirmed
-- either.
pub quarantine-ends :
    (h : Hashes) (g : NodeIdentityRegistry) (node_id reason : String) (now later : ℕ)
    (session_id token : String) (instant : ℕ)
    → verify_session h
        (restore (quarantine g node_id reason now).0 node_id later).0
        session_id
        node_id
        token
        instant
      ≡ false
unfolding quarantine
quarantine-ends h g node_id reason now later session_id token instant =
    elim (Option-cases (get node_id g.by_node_id)) [
      | inl unknown ↦
          rw (quarantine, unknown)
            (unknown-refused h (restore g node_id later).0 session_id node_id token instant
              (by_node_id-restore_unknown g node_id later unknown))
      | inr (i, known) ↦
          rw (quarantine, known)
            (NoSession-refused h (restore (after i) node_id later).0 session_id node_id token
              instant
              (subst (Each (λ id grant. (grant.node_id == node_id) ≡ false))
                (sym (sessions-restore (after i) node_id later))
                (drop_sessions-NoSession node_id g.sessions)))
    ]
  where
    after : NodeIdentity → NodeIdentityRegistry
    after i = record g {
      by_node_id = put node_id (quarantine_identity i reason now) g.by_node_id;
      sessions = drop_sessions node_id g.sessions;
    }
