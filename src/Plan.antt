-- ===== src/Plan.antt =====
-- integration_orchestrator.py: the plan that the policy judges and the engine executes, with the parts
-- of the router's, the cache's and the data fabric's decisions that these two read or report, and the
-- metadata values. Scores, which are floats that nobody reads again, are left out.
pub mod Metadata
use cyber_hive.Prelude.{
  string_eq, nat_eq, is_empty, ℕ, String, Bool, true, false, Option, none, some, List,
}
use Metadata.{Fields}

pub data OrchestrationAction : Type 0 where
  reuse route prewarm queue reject : OrchestrationAction

unfoldable pub action_value : OrchestrationAction → String
action_value reuse = "reuse"
action_value route = "route"
action_value prewarm = "prewarm"
action_value queue = "queue"
action_value reject = "reject"

abbrev pub is_reuse : OrchestrationAction → Bool
is_reuse reuse = true
is_reuse _ = false

abbrev pub is_reject : OrchestrationAction → Bool
is_reject reject = true
is_reject _ = false

abbrev pub is_queue : OrchestrationAction → Bool
is_queue queue = true
is_queue _ = false

-- `plan.action in {ROUTE, PREWARM}`
abbrev pub is_routed : OrchestrationAction → Bool
is_routed route = true
is_routed prewarm = true
is_routed _ = false

pub record OrchestrationStep : Type 0 where
  pub name : String
  pub status : String
  pub reason : String
  pub metadata : Fields

pub record RouteDecision : Type 0 where
  pub request_id : String
  pub target_node : Option String
  pub reason : String

-- The action and the tiers are the texts of their enumerations.
pub record DataMove : Type 0 where
  pub object_id : String
  pub action : String
  pub from_tier : Option String
  pub to_tier : String
  pub replicas : ℕ
  pub target_devices : List String
  pub reason : String

pub record PrewarmPlan : Type 0 where
  pub id : String
  pub target_node : String
  pub model_id : String
  pub reason : String
  pub priority : ℕ
  pub actions : List String

pub record OrchestrationPlan : Type 0 where
  pub id : String
  pub request_id : String
  pub action : OrchestrationAction
  pub reason : String
  pub created_at : ℕ
  pub reuse_decision : Option String
  pub route_decision : Option RouteDecision
  pub data_moves : List DataMove
  pub prewarm_plans : List PrewarmPlan
  pub steps : List OrchestrationStep
  pub metadata : Fields

-- `route_decision is None or not route_decision.target_node`
unfoldable pub lacks_target : Option RouteDecision → Bool
lacks_target none = true
lacks_target (some decision) = elim decision.target_node [ none ↦ true | some node ↦ is_empty node ]
