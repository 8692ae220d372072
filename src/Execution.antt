-- ===== src/Execution.antt =====
-- execution_engine.py: steps, statuses and runs of the engine. The runtime bus and the journal file
-- are a parameter: each effect changes a world `W` and may raise an exception.
pub mod Engine
pub mod Steps
pub mod Runs
use Prim.Native.String.{◌++◌ as str_append}
use cyber_hive.Prelude.{
  if◌then◌else◌, is_some, string_eq, nat_eq, ◌==◌, any, Result, ok, raise, is_empty, ℕ, String,
  Bool, true, false, ◌&&◌, not, Option, some, List, [], ◌∷◌, map,
}
use cyber_hive.Plan.{
  action_value, is_reuse, is_reject, is_queue, OrchestrationStep, OrchestrationPlan,
}
use cyber_hive.Plan.Metadata.{text, Fields, end, field}

pub data ExecutionStatus : Type 0 where
  planned running succeeded failed skipped dry_run : ExecutionStatus

unfoldable pub status_value : ExecutionStatus → String
status_value planned = "planned"
status_value running = "running"
status_value succeeded = "succeeded"
status_value failed = "failed"
status_value skipped = "skipped"
status_value dry_run = "dry_run"

abbrev pub is_failed : ExecutionStatus → Bool
is_failed failed = true
is_failed _ = false

pub record ExecutionPolicy : Type 0 where
  pub allow_physical_data_moves : Bool
  pub allow_remote_execution : Bool
  pub allow_prewarm_side_effects : Bool
  pub require_dry_run_for_unknown_steps : Bool

abbrev pub default_policy : ExecutionPolicy
default_policy = record {
  allow_physical_data_moves = false;
  allow_remote_execution = false;
  allow_prewarm_side_effects = false;
  require_dry_run_for_unknown_steps = true;
}

pub record ExecutionStepResult : Type 0 where
  pub name : String
  pub status : ExecutionStatus
  pub reason : String
  pub metadata : Fields

pub record ExecutionRun : Type 0 where
  pub id : String
  pub plan_id : String
  pub request_id : String
  pub status : ExecutionStatus
  pub is_dry_run : Bool
  pub started_at : ℕ
  pub completed_at : Option ℕ
  pub steps : List ExecutionStepResult
  pub events_published : ℕ
  pub metadata : Fields

-- the operation that `_publish` hands to the bus
pub record Publication : Type 0 where
  pub resource_id : String
  pub event : String
  pub run_id : String
  pub plan_id : String
  pub request_id : String
  pub plan_action : String
  pub metadata : Fields
  pub priority : ℕ

-- an exception of the bus or the file system: its type's name and its text
pub record Exn : Type 0 where
  pub type_name : String
  pub message : String

pub record Effects (W : Type 0) : Type 0 where
  pub publish : Publication → W → W × Option Exn
  pub append : ExecutionRun → W → W × Option Exn
  pub flush : W → W × Option Exn

pub data ExecutionError : Type 0 where
  plan_id_required request_id_required route_decision_required : ExecutionError
  execution_failed : String → ExecutionError
  -- raised before the `try`, and so not turned into an `ExecutionError`
  uncaught : Exn → ExecutionError

pub record ExecutionEngine : Type 0 where
  pub has_bus : Bool
  pub has_journal : Bool
  pub policy : ExecutionPolicy

unfoldable pub result : OrchestrationStep → ExecutionStatus → String → ExecutionStepResult
result step status reason = record {
  name = step.name;
  status = status;
  reason = reason;
  metadata = step.metadata;
}

unfoldable pub execute_step :
    ExecutionPolicy → OrchestrationStep → OrchestrationPlan → Bool → ExecutionStepResult
unfolding result
execute_step policy step plan dry =
    if dry
    then result step dry_run (str_append "dry-run: " step.reason)
    else if step.name == "reuse"
    then if is_reuse plan.action
      then result step succeeded "reuse accepted; compute skipped"
      else result step skipped "cache did not short-circuit execution"
    else if step.name == "data_placement"
    then result step succeeded "placement decision accepted"
    else if step.name == "data_moves"
    then if policy.allow_physical_data_moves
      then result step succeeded "data move handler allowed by policy"
      else result step skipped "physical data moves disabled by execution policy"
    else if step.name == "scheduler_hints"
    then result step succeeded "scheduler hints applied to decision context"
    else if step.name == "route"
    then if is_reject plan.action
      then result step failed "route rejected by scheduler"
      else if is_queue plan.action
      then result step skipped "workload queued instead of executed"
      else result step succeeded "route decision accepted"
    else if step.name == "prewarm"
    then if policy.allow_prewarm_side_effects
      then result step succeeded "prewarm handler allowed by policy"
      else result step skipped "prewarm side effects disabled by execution policy"
    else if policy.require_dry_run_for_unknown_steps
    then result step skipped "unknown step requires explicit handler"
    else result step succeeded "unknown step accepted by permissive policy"

unfoldable pub execute_steps :
    ExecutionPolicy → List OrchestrationStep → OrchestrationPlan → Bool → List ExecutionStepResult
execute_steps policy steps plan dry = map (λ step. execute_step policy step plan dry) steps

unfoldable pub final_status : OrchestrationPlan → List ExecutionStepResult → Bool → ExecutionStatus
final_status plan steps dry =
    if dry
    then dry_run
    else if is_reject plan.action
    then failed
    else if is_queue plan.action
    then skipped
    else if any (λ step. is_failed step.status) steps
    then failed
    else succeeded

unfoldable pub validate_plan : OrchestrationPlan → Result ExecutionError (Unit {0})
validate_plan plan =
    if is_empty plan.id
    then raise plan_id_required
    else if is_empty plan.request_id
    then raise request_id_required
    else if is_reject plan.action && not (is_some plan.route_decision)
    then raise route_decision_required
    else ok tt

unfoldable pub publication : String → String → OrchestrationPlan → Fields → Publication
publication run_id event plan metadata = record {
  resource_id = str_append "execution." (str_append run_id (str_append "." event));
  event = event;
  run_id = run_id;
  plan_id = plan.id;
  request_id = plan.request_id;
  plan_action = action_value plan.action;
  metadata = metadata;
  priority = 80;
}

-- the run at the end of the `try`, with the number of events published so far
unfoldable pub completed_run :
    ExecutionEngine → OrchestrationPlan → Bool → String → ℕ → ℕ → ℕ → ExecutionRun
unfolding execute_steps final_status
completed_run engine plan dry run_id started completed events =
    let steps = execute_steps engine.policy plan.steps plan dry in
    record {
      id = run_id;
      plan_id = plan.id;
      request_id = plan.request_id;
      status = final_status plan steps dry;
      is_dry_run = dry;
      started_at = started;
      completed_at = some completed;
      steps = steps;
      events_published = events;
      metadata =
          field "plan_action" (text (action_value plan.action))
            (field "plan_reason" (text plan.reason) end);
    }

unfoldable pub failed_run : OrchestrationPlan → Bool → String → ℕ → ℕ → ℕ → Exn → ExecutionRun
failed_run plan dry run_id started completed events exn = record {
  id = run_id;
  plan_id = plan.id;
  request_id = plan.request_id;
  status = failed;
  is_dry_run = dry;
  started_at = started;
  completed_at = some completed;
  steps = record { name = "execution"; status = failed; reason = exn.message; metadata = end } ∷ [];
  events_published = events;
  metadata =
      field "plan_action" (text (action_value plan.action))
        (field "error_type" (text exn.type_name) end);
}
