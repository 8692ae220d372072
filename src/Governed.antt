-- ===== src/Governed.antt =====
-- approval_workflow.py: GovernedExecutionController, which puts the policy guard and the approval broker
-- before the execution engine.
pub mod Cleared
pub mod Approving
pub mod Resumed
use cyber_hive.Prelude.{
  if◌then◌else◌, string_eq, nat_eq, ◌==◌, Result, ok, raise, is_empty, ℕ, String, Bool, true, false,
  not, Option, none, some, List, [], ◌∷◌,
}
use cyber_hive.Plan.{OrchestrationPlan}
use cyber_hive.Plan.Metadata.{
  Value, null, text, scalar, sequence, Items, nil, cons, Fields, end, field, get_field,
}
use cyber_hive.Approval.{
  is_approved, ApprovalError, not_approved, subject_mismatch, plan_id_missing, plan_id_mismatch,
  request_id_missing, request_id_mismatch, ApprovalRequest, ApprovalBroker, create_request,
  get_request, context_with_approvals,
}
use cyber_hive.Policy.{
  PolicyOutcome, require_approval, deny, data_move_execute, prewarm_execute, PolicyContext,
  has_approval, PolicyDecision, required_approvals, PolicyGuard, evaluate_plan,
}
use cyber_hive.Execution.Engine.{execute}
use cyber_hive.Execution.{
  dry_run, status_value, default_policy, ExecutionRun, Effects, ExecutionError, ExecutionEngine,
}

-- `plain` is the outcome DRY_RUN.
pub data GovernedExecutionOutcome : Type 0 where
  plain executed approval_required refused : GovernedExecutionOutcome

abbrev pub has_run : GovernedExecutionOutcome → Bool
has_run plain = true
has_run executed = true
has_run _ = false

pub record GovernedExecutionResult : Type 0 where
  pub id : String
  pub outcome : GovernedExecutionOutcome
  pub decision : PolicyDecision
  pub created_at : ℕ
  pub reason : String
  pub approval_request : Option ApprovalRequest
  pub run : Option ExecutionRun
  pub metadata : Fields

pub data GovernedError : Type 0 where
  approval_error : ApprovalError → GovernedError
  execution_error : ExecutionError → GovernedError

pub record GovernedExecutionController : Type 0 where
  pub policy_guard : PolicyGuard
  pub approval_broker : ApprovalBroker
  pub execution_engine : Option ExecutionEngine

-- What a call draws: fresh identifiers and readings of the clock.
pub record Draws : Type 0 where
  pub decision_id : String
  pub approval_id : String
  pub run_id : String
  pub result_id : String
  pub now : ℕ
  pub completed : ℕ

abbrev pub Governed : Type 0
Governed = Result GovernedError GovernedExecutionResult

-- `context.has_approval` sets the two switches of an engine made for the call.
unfoldable pub engine_for_context : Option ExecutionEngine → PolicyContext → ExecutionEngine
unfolding has_approval
engine_for_context (some engine) ctx = engine
engine_for_context none ctx = record {
  has_bus = false;
  has_journal = false;
  policy = record default_policy {
    allow_physical_data_moves = has_approval ctx data_move_execute;
    allow_prewarm_side_effects = has_approval ctx prewarm_execute;
  };
}

unfoldable pub governed_result :
    Draws
    → GovernedExecutionOutcome
    → PolicyDecision
    → String
    → Option ApprovalRequest
    → Option ExecutionRun
    → Fields
    → GovernedExecutionResult
governed_result draws outcome decision reason request run metadata = record {
  id = draws.result_id;
  outcome = outcome;
  decision = decision;
  created_at = draws.now;
  reason = reason;
  approval_request = request;
  run = run;
  metadata = metadata;
}

-- a tuple of texts in the metadata
abbrev pub texts : List String → Items
texts [] = nil
texts (t ∷ ts) = cons (text t) (texts ts)

unfoldable pub ask_approval :
    ApprovalBroker
    → OrchestrationPlan
    → PolicyDecision
    → String
    → ℕ
    → Draws
    → ApprovalBroker × Governed
unfolding governed_result
ask_approval broker plan decision requested_by ttl draws =
    let (broker', reply) =
      create_request broker decision requested_by ttl "policy approval required before execution"
        (field "plan_id" (text plan.id) (field "request_id" (text plan.request_id) end))
        draws.approval_id draws.now in
    elim reply [
      | raise e ↦ (broker', raise (approval_error e))
      | ok request ↦ (
        broker',
        ok (
            governed_result draws approval_required decision "approval request created"
              (some request) none
              (field "required_approvals" (sequence (texts (required_approvals decision))) end)),
      )
    ]

-- `requested_by or ctx.subject`
unfoldable pub requester : Option String → PolicyContext → String
requester none ctx = ctx.subject
requester (some name) ctx = if is_empty name then ctx.subject else name

module _ {W : Type 0} (fx : Effects W) where
  unfoldable pub run_plan :
      ExecutionEngine
      → OrchestrationPlan
      → PolicyContext
      → PolicyDecision
      → Draws
      → W
      → W × Governed
  unfolding governed_result
  run_plan engine plan ctx decision draws w =
      let (w', reply) =
        execute fx engine plan ctx.dry_run draws.run_id draws.now draws.completed draws.completed
          w in
      elim reply [
        | raise e ↦ (w', raise (execution_error e))
        | ok run ↦ (
          w',
          ok (
              governed_result draws (if ctx.dry_run then plain else executed) decision
                "policy allowed execution" none (some run)
                (field "run_status" (text (status_value run.status)) end)),
        )
      ]

  -- what follows the decision of the guard
  unfoldable pub after_decision :
      GovernedExecutionController
      → OrchestrationPlan
      → PolicyContext
      → Option String
      → ℕ
      → Draws
      → PolicyDecision
      → PolicyOutcome
      → W
      → W × GovernedExecutionController × Governed
  unfolding governed_result ask_approval requester run_plan engine_for_context
  after_decision c plan ctx requested_by ttl draws decision deny w = (
    w,
    c,
    ok (
        governed_result draws refused decision "policy denied execution" none none
          (field "plan_id" (text plan.id) end)),
  )
  after_decision c plan ctx requested_by ttl draws decision require_approval w =
      let (broker, reply) =
        ask_approval c.approval_broker plan decision (requester requested_by ctx) ttl draws in
      (w, record c { approval_broker = broker }, reply)
  after_decision c plan ctx requested_by ttl draws decision _ w =
      let (w', reply) =
        run_plan (engine_for_context c.execution_engine ctx) plan ctx decision draws w in
      (w', c, reply)

  unfoldable pub evaluate_or_execute :
      GovernedExecutionController
      → OrchestrationPlan
      → PolicyContext
      → Option String
      → ℕ
      → Draws
      → W
      → W × GovernedExecutionController × Governed
  unfolding after_decision
  evaluate_or_execute c plan ctx requested_by ttl draws w =
      let (guard, decision) = evaluate_plan c.policy_guard plan ctx draws.decision_id draws.now in
      after_decision (record c { policy_guard = guard }) plan ctx requested_by ttl draws decision
        decision.outcome w

-- `_metadata_string`, where `render` is Python's `str` of a number, a mapping or a sequence
module _ (render : Value → String) where
  unfoldable pub string_of : Value → Option String
  string_of null = none
  string_of (text s) = if is_empty s then none else some s
  string_of (scalar s) = if is_empty s then none else some s
  string_of v = let s = render v in if is_empty s then none else some s

  unfoldable pub metadata_string : Fields → String → Option String
  unfolding get_field string_of
  metadata_string metadata key = elim (get_field key metadata) [
    | none ↦ none
    | some v ↦ string_of v
  ]

  -- the bindings that `resume_with_approval` tests, in their order
  unfoldable pub binding_error :
      ApprovalRequest → OrchestrationPlan → PolicyContext → Option ApprovalError
  unfolding metadata_string
  binding_error r plan base =
      if not (is_approved r.status)
      then some (not_approved r.status)
      else if not (r.subject == base.subject)
      then some subject_mismatch
      else elim (metadata_string r.metadata "plan_id") [
        | none ↦ some plan_id_missing
        | some plan_id ↦
            if not (plan_id == plan.id)
            then some plan_id_mismatch
            else elim (metadata_string r.metadata "request_id") [
              | none ↦ some request_id_missing
              | some request_id ↦
                  if request_id == plan.request_id then none else some request_id_mismatch
            ]
      ]

  module _ {W : Type 0} (fx : Effects W) where
    unfoldable pub resume_bound :
        GovernedExecutionController
        → OrchestrationPlan
        → String
        → PolicyContext
        → Draws
        → W
        → Option ApprovalError
        → W × GovernedExecutionController × Governed
    unfolding evaluate_or_execute
    resume_bound c plan id base draws w (some e) = (w, c, raise (approval_error e))
    resume_bound c plan id base draws w none =
        let (broker, reply) = context_with_approvals c.approval_broker base id draws.now in
        let c' = record c { approval_broker = broker } in
        elim reply [
          | raise e ↦ (w, c', raise (approval_error e))
          | ok ctx ↦ evaluate_or_execute fx c' plan ctx (some ctx.subject) 900 draws w
        ]

    unfoldable pub resume_with_approval :
        GovernedExecutionController
        → OrchestrationPlan
        → String
        → PolicyContext
        → Draws
        → W
        → W × GovernedExecutionController × Governed
    unfolding binding_error resume_bound
    resume_with_approval c plan id base draws w =
        let (broker, reply) = get_request c.approval_broker id draws.now in
        let c' = record c { approval_broker = broker } in
        elim reply [
          | raise e ↦ (w, c', raise (approval_error e))
          | ok r ↦ resume_bound c' plan id base draws w (binding_error r plan base)
        ]
