-- ===== src/Identity/Registry.antt =====
-- node_identity.py: NodeIdentityRegistry. Identities are objects that the registry changes in place;
-- `restore` is the method of an identity that a caller got from the registry.
pub mod Sessions
use cyber_hive.Prelude.{
  if◌then◌else◌, string_eq, nat_eq, ◌==◌, Result, ok, raise, is_empty, ℕ, ◌+◌, ◌*◌, String, Bool,
  false, ◌&&◌, not, Option, none, some, [], ◌∷◌,
}
use cyber_hive.Prelude.Dict.{Dict, get, put}
use cyber_hive.Identity.{
  is_enrolled, EnrollmentError, fingerprint_taken, node_id_taken, unknown_node, not_allowed, Hashes,
  second, public_key_fingerprint, NodeIdentity, revoke_identity, quarantine_identity,
  restore_identity, NodeSessionGrant, confirms,
}

pub record NodeIdentityRegistry : Type 0 where
  pub by_node_id : Dict String NodeIdentity
  pub by_fingerprint : Dict String String
  pub sessions : Dict String NodeSessionGrant

abbrev pub Reply : Type 0
Reply = NodeIdentityRegistry × Result EnrollmentError NodeIdentity

-- `existing and existing.id != identity.id`
abbrev pub is_other : Option NodeIdentity → NodeIdentity → Bool
is_other none i = false
is_other (some existing) i = not (existing.id == i.id)

-- `fingerprint_owner and fingerprint_owner != identity.node_id`
abbrev pub owned_by_other : Option String → String → Bool
owned_by_other none node_id = false
owned_by_other (some owner) node_id = not (is_empty owner) && not (owner == node_id)

unfoldable pub register : NodeIdentityRegistry → NodeIdentity → Reply
register g i =
    if is_other (get i.node_id g.by_node_id) i
    then (g, raise (node_id_taken i.node_id))
    else if owned_by_other (get i.public_key_fingerprint g.by_fingerprint) i.node_id
    then (g, raise fingerprint_taken)
    else (
      record g {
        by_node_id = put i.node_id i g.by_node_id;
        by_fingerprint = put i.public_key_fingerprint i.node_id g.by_fingerprint;
      },
      ok i,
    )

-- the loop of `_remove_sessions_for_node`
unfoldable pub drop_sessions : String → Dict String NodeSessionGrant → Dict String NodeSessionGrant
drop_sessions node_id [] = []
drop_sessions node_id ((id, grant) ∷ rest) =
    let later = drop_sessions node_id rest in
    if grant.node_id == node_id then later else (id, grant) ∷ later

unfoldable pub revoke : NodeIdentityRegistry → String → ℕ → Reply
unfolding revoke_identity drop_sessions
revoke g node_id now = elim (get node_id g.by_node_id) [
  | none ↦ (g, raise (unknown_node node_id))
  | some i ↦
      let i' = revoke_identity i now in
      (
        record g {
          by_node_id = put node_id i' g.by_node_id;
          sessions = drop_sessions node_id g.sessions;
        },
        ok i',
      )
]

unfoldable pub quarantine : NodeIdentityRegistry → String → String → ℕ → Reply
unfolding quarantine_identity drop_sessions
quarantine g node_id reason now = elim (get node_id g.by_node_id) [
  | none ↦ (g, raise (unknown_node node_id))
  | some i ↦
      let i' = quarantine_identity i reason now in
      (
        record g {
          by_node_id = put node_id i' g.by_node_id;
          sessions = drop_sessions node_id g.sessions;
        },
        ok i',
      )
]

unfoldable pub restore : NodeIdentityRegistry → String → ℕ → Reply
unfolding restore_identity
restore g node_id now = elim (get node_id g.by_node_id) [
  | none ↦ (g, raise (unknown_node node_id))
  | some i ↦ elim (restore_identity i now) [
    | raise e ↦ (g, raise e)
    | ok i' ↦ (record g { by_node_id = put node_id i' g.by_node_id }, ok i')
  ]
]

-- `token` and `id` are drawn at random.
unfoldable pub new_session :
    Hashes → NodeIdentity → String → ℕ → String → String → ℕ → NodeSessionGrant
new_session h i node_id ttl token id now = record {
  id = id;
  node_id = node_id;
  token_hash = h.sha256_hex token;
  issued_at = now;
  expires_at = now + second * ttl;
  capabilities = i.capabilities;
  identity_id = i.id;
}

unfoldable pub issue_session :
    Hashes
    → NodeIdentityRegistry
    → String
    → ℕ
    → String
    → String
    → ℕ
    → NodeIdentityRegistry × Result EnrollmentError NodeSessionGrant
unfolding new_session
issue_session h g node_id ttl token id now = elim (get node_id g.by_node_id) [
  | none ↦ (g, raise (unknown_node node_id))
  | some i ↦
      if not (is_enrolled i.trust_state)
      then (g, raise (not_allowed node_id))
      else let grant = new_session h i node_id ttl token id now in
        (record g { sessions = put grant.id grant g.sessions }, ok grant)
]

-- the identity behind a session
abbrev pub stands : Option NodeIdentity → NodeSessionGrant → Bool
stands none grant = false
stands (some i) grant = (i.id == grant.identity_id) && is_enrolled i.trust_state

unfoldable pub verify_session : Hashes → NodeIdentityRegistry → String → String → String → ℕ → Bool
unfolding confirms
verify_session h g session_id node_id token now = elim (get session_id g.sessions) [
  | none ↦ false
  | some grant ↦
      if not (grant.node_id == node_id)
      then false
      else if not (confirms h grant token now)
      then false
      else stands (get node_id g.by_node_id) grant
]
