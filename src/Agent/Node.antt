-- ===== src/Agent/Node.antt =====
-- node_agent.py: the typed actions, and LocalNodeAgent with its safety gates. What Python makes of a
-- value of a payload is a parameter.
use cyber_hive.Prelude.{
  nat_beq, if◌then◌else◌, Eq, string_eq, nat_eq, ◌==◌, mem, Result, ℕ, String, ◌≡◌, ◌↔◌, Bool, true,
  false, Option, none, some, List, arith,
}
use cyber_hive.Plan.Metadata.{Value, Fields}
use cyber_hive.Resource.{Raw}

-- `str`, the truth value, `float` and `int` of a value, and the length in bytes of a mapping's JSON
pub record Python : Type 0 where
  pub str_of : Value → String
  pub is_true : Value → Bool
  pub float_of : Value → Raw
  pub int_of : Value → Result String ℕ
  pub json_size : Fields → ℕ

pub data AgentActionType : Type 0 where
  health_check prewarm_model data_move cache_prime noop : AgentActionType

unfoldable pub action_value : AgentActionType → String
action_value health_check = "health_check"
action_value prewarm_model = "prewarm_model"
action_value data_move = "data_move"
action_value cache_prime = "cache_prime"
action_value noop = "noop"

-- `AgentActionType(value)`
unfoldable pub action_of : String → Option AgentActionType
action_of s =
    if s == "health_check"
    then some health_check
    else if s == "prewarm_model"
    then some prewarm_model
    else if s == "data_move"
    then some data_move
    else if s == "cache_prime"
    then some cache_prime
    else if s == "noop"
    then some noop
    else none

abbrev action_tag : AgentActionType → ℕ
action_tag health_check = 0
action_tag prewarm_model = 1
action_tag data_move = 2
action_tag cache_prime = 3
action_tag noop = 4

abbrev pub action_beq : AgentActionType → AgentActionType → Bool
action_beq a b = nat_beq (action_tag a) (action_tag b)

pub action_beq_iff : (a b : AgentActionType) → (action_beq a b ≡ true) ↔ (a ≡ b)
action_beq_iff a b = ground arith

instance abbrev pub action_eq : Eq AgentActionType
action_eq = record { beq = action_beq; beq_iff = action_beq_iff }

pub data AgentActionStatus : Type 0 where
  accepted dry_run succeeded skipped denied failed : AgentActionStatus

unfoldable pub status_value : AgentActionStatus → String
status_value accepted = "accepted"
status_value dry_run = "dry_run"
status_value succeeded = "succeeded"
status_value skipped = "skipped"
status_value denied = "denied"
status_value failed = "failed"

pub data NodeAgentError : Type 0 where
  descriptor_id_required request_id_required target_node_required : NodeAgentError
  unsupported_allowed_action already_registered not_registered : String → NodeAgentError
  publish_failed : NodeAgentError

pub record NodeDescriptor : Type 0 where
  pub id : String
  pub enabled : Bool
  pub healthy : Bool
  pub capabilities : List String
  pub allowed_actions : List String
  pub labels : Fields
  pub metadata : Fields
  pub updated_at : ℕ

unfoldable pub supports_action : NodeDescriptor → AgentActionType → Bool
supports_action d a = mem (action_value a) d.allowed_actions

pub record AgentActionRequest : Type 0 where
  pub target_node : String
  pub action : AgentActionType
  pub payload : Fields
  pub is_dry_run : Bool
  pub approval_tokens : List String
  pub requested_by : String
  pub correlation_id : Option String
  pub id : String
  pub created_at : ℕ

-- the context that a handler gets
pub record ActionHandlerContext : Type 0 where
  pub node_id : String
  pub session_id : Option String
  pub delivery_id : Option String
  pub correlation_id : Option String
  pub requested_by : String
  pub is_dry_run : Bool
  pub approval_tokens : List String
  pub resource_reservation_id : Option String
  pub metadata : Fields

-- The mappings that the code puts into the metadata of a result.
pub data ResultMetadata : Type 0 where
  nothing : ResultMetadata
  would_execute : String → ResultMetadata
  description : NodeDescriptor → ResultMetadata
  warmed : String → List String → ResultMetadata
  given : Fields → ResultMetadata
  in_context : ActionHandlerContext → ResultMetadata

pub record AgentActionResult : Type 0 where
  pub request_id : String
  pub target_node : String
  pub action : AgentActionType
  pub status : AgentActionStatus
  pub reason : String
  pub created_at : ℕ
  pub completed_at : ℕ
  pub id : String
  pub metadata : ResultMetadata
  pub events : List String

-- `AgentActionResult.ok`
unfoldable pub is_good : AgentActionResult → Bool
is_good r = elim r.status [
  | dry_run ↦ true
  | succeeded ↦ true
  | skipped ↦ true
  | accepted ↦ false
  | denied ↦ false
  | failed ↦ false
]
