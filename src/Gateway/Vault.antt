-- ===== src/Gateway/Vault.antt =====
-- secure_node_gateway.py: the credentials of node sessions and the receipts of the gateway.
use cyber_hive.Prelude.{
  if◌then◌else◌, is_some, string_eq, nat_eq, ◌==◌, Result, ok, raise, is_empty, ℕ, String, Bool,
  true, false, ◌&&◌, not, Option, none, some,
}
use cyber_hive.Prelude.Dict.{Dict, get, put, pop}
use cyber_hive.Plan.Metadata.{Fields}
use cyber_hive.Channel.Envelope.{ChannelDirection, ChannelPurpose, direction_eq, purpose_eq}
use cyber_hive.Channel.Guard.{ChannelVerification, key_eq, has_expired}

pub data GatewayError : Type 0 where
  session_id_required node_id_required token_required session_taken : GatewayError
  no_credential other_node not_active : GatewayError

-- `str` of the exception
unfoldable pub message : GatewayError → String
message session_id_required = "session_id is required"
message node_id_required = "node_id is required"
message token_required = "token is required"
message session_taken = "session_id is already assigned to another node"
message no_credential = "no session credential available"
message other_node = "session credential belongs to a different node"
message not_active = "session credential is not active"

pub record SessionCredential : Type 0 where
  pub session_id : String
  pub node_id : String
  pub token : String
  pub created_at : ℕ
  pub expires_at : Option ℕ
  pub metadata : Fields
  pub revoked : Bool

unfoldable pub is_active : SessionCredential → ℕ → Bool
unfolding has_expired
is_active c now = not c.revoked && not (has_expired c.expires_at now)

-- the sessions by their ids
abbrev pub Vault : Type 0
Vault = Dict String SessionCredential

-- the session is another node's
unfoldable pub is_taken : Option SessionCredential → String → Bool
is_taken none node_id = false
is_taken (some c) node_id = not (c.node_id == node_id)

unfoldable pub store :
    Vault
    → String
    → String
    → String
    → Option ℕ
    → Fields
    → ℕ
    → Vault × Result GatewayError SessionCredential
unfolding is_taken
store v session_id node_id token expires metadata now =
    if is_empty session_id
    then (v, raise session_id_required)
    else if is_empty node_id
    then (v, raise node_id_required)
    else if is_empty token
    then (v, raise token_required)
    else if is_taken (get session_id v) node_id
    then (v, raise session_taken)
    else let credential : SessionCredential = record {
      session_id = session_id;
      node_id = node_id;
      token = token;
      created_at = now;
      expires_at = expires;
      metadata = metadata;
      revoked = false;
    } in
      (put session_id credential v, ok credential)

-- `node_id is not None and credential.node_id != node_id`
unfoldable pub is_foreign : Option String → SessionCredential → Bool
is_foreign none c = false
is_foreign (some node_id) c = not (c.node_id == node_id)

unfoldable pub require : Vault → String → Option String → ℕ → Result GatewayError SessionCredential
unfolding is_foreign
require v session_id node_id now = elim (get session_id v) [
  | none ↦ raise no_credential
  | some c ↦
      if is_foreign node_id c
      then raise other_node
      else if not (is_active c now)
      then raise not_active
      else ok c
]

unfoldable pub revoke : Vault → String → ℕ → Vault × Result GatewayError SessionCredential
revoke v session_id now = elim (require v session_id none now) [
  | raise e ↦ (v, raise e)
  | ok c ↦ let revoked = record c { revoked = true } in (put session_id revoked v, ok revoked)
]

unfoldable pub forget : Vault → String → Vault × Bool
forget v session_id = (pop session_id v, is_some (get session_id v))

pub data GatewayMessageStatus : Type 0 where
  message_accepted message_denied message_dispatched message_recorded message_error :
      GatewayMessageStatus

-- The field `result`: nothing, a mapping, or an answer of the heartbeat store or the dispatcher.
pub data Outcome (R : Type 0) : Type 0 where
  no_result : Outcome R
  mapping_result : Fields → Outcome R
  answer : R → Outcome R

pub record GatewayReceipt (R : Type 0) : Type 0 where
  pub status : GatewayMessageStatus
  pub envelope_id : String
  pub node_id : String
  pub purpose : ChannelPurpose
  pub direction : ChannelDirection
  pub reason : String
  pub verification : Option ChannelVerification
  pub result : Outcome R
  pub session_id : Option String
  pub created_at : ℕ
  pub id : String

abbrev pub is_recorded : GatewayMessageStatus → Bool
is_recorded message_recorded = true
is_recorded _ = false

-- `GatewayReceipt.ok`
unfoldable pub is_good : {R : Type 0} → GatewayReceipt R → Bool
is_good r = elim r.status [
  | message_accepted ↦ true
  | message_dispatched ↦ true
  | message_recorded ↦ true
  | message_denied ↦ false
  | message_error ↦ false
]
