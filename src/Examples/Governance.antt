-- ===== src/Examples/Governance.antt =====
-- approval_workflow.py at concrete inputs: a live move that waits for approval, and goes on with it.
use cyber_hive.Governed.Approving.{approve-Permitted}
use cyber_hive.Prelude.{
  string_eq, nat_eq, is_nil, keep, any, mem, subset, insert_sorted, sorted_set, ok, raise, ℕ, suc,
  ◌<◌, ◌≡◌, refl, ◌≢◌, true, false, none, some, [], ◌∷◌, arith,
}
use cyber_hive.Prelude.Dict.{get, put}
use cyber_hive.Plan.{reuse, action_value, OrchestrationPlan, lacks_target}
use cyber_hive.Plan.Metadata.{
  text, end, field, lower, lower_is, says_secret, is_label, contains_secret_marker, items_contain,
  fields_contain, get_field, set_field,
}
use cyber_hive.Approval.{
  is_open, ApprovalRequest, missing_tokens, is_expired, ApprovalBroker, write_journal, store,
  new_request, create_request, refresh_expiry, get_request, get_mutable, granted, approve_with,
  wanted_tokens, approve, approved_context, context_with_approvals, creates, approves, step, run,
}
use cyber_hive.Approval.Keeps.{Holds}
use cyber_hive.Approval.Status.{IsConsistent, run-IsConsistent}
use cyber_hive.Approval.Context.{Backs}
use cyber_hive.Policy.{
  require_approval, deny, token_value, PolicyContext, has_approval, named_approvals,
  required_approvals, worst_outcome, deny_finding, approval_finding, allow_finding, id_findings,
  live_findings, route_findings, effect_findings, secret_findings, reuse_findings, plan_findings,
  finalize, evaluate_plan,
}
use cyber_hive.Policy.Permitted.{Permitted}
use cyber_hive.Execution.Engine.{execute_body, execute}
use cyber_hive.Execution.{
  Effects, result, execute_step, execute_steps, final_status, validate_plan, completed_run,
}
use cyber_hive.Governed.{
  refused, has_run, GovernedExecutionResult, GovernedExecutionController, Draws, Governed,
  engine_for_context, governed_result, run_plan, after_decision, evaluate_or_execute, string_of,
  metadata_string, binding_error, resume_bound, resume_with_approval,
}
use cyber_hive.Governed.Cleared.{HoldsRun, evaluate_or_execute-untouched}
use cyber_hive.Governed.Resumed.{BoundTo, resume_with_approval-Backs}
use cyber_hive.Examples.Decisions.{move_plan, live_context}

abbrev silent : Effects ℕ
silent = record {
  publish = λ p n. (suc n, none);
  append = λ r n. (suc n, none);
  flush = λ n. (n, none);
}

abbrev draws : Draws
draws = record {
  decision_id = "pol_1";
  approval_id = "apr_1";
  run_id = "run_1";
  result_id = "gov_1";
  now = 1000000;
  completed = 1000001;
}

abbrev empty_controller : GovernedExecutionController
empty_controller = record {
  policy_guard = some [];
  approval_broker = record { journal = none; requests = [] };
  execution_engine = none;
}

-- a plan that reuses a result
abbrev reuse_plan : OrchestrationPlan
reuse_plan = record move_plan {
  action = reuse;
  route_decision = none;
  data_moves = [];
  steps = [];
  metadata = end;
}

abbrev after_reuse : ℕ × GovernedExecutionController × Governed
after_reuse = evaluate_or_execute silent empty_controller reuse_plan live_context none 900 draws 0

abbrev result_or : Governed → GovernedExecutionResult → GovernedExecutionResult
result_or (ok r) other = r
result_or (raise e) other = other

abbrev none_yet : GovernedExecutionResult
none_yet = record {
  id = "";
  outcome = refused;
  decision = (evaluate_plan none reuse_plan live_context "" 0).1;
  created_at = 0;
  reason = "";
  approval_request = none;
  run = none;
  metadata = end;
}

abbrev reused : GovernedExecutionResult
reused = result_or after_reuse.2 none_yet

reused_ran : (after_reuse.2 ≡ ok reused) × (has_run reused.outcome ≡ true)
unfolding evaluate_or_execute after_decision run_plan governed_result engine_for_context execute
    execute_body validate_plan evaluate_plan finalize plan_findings id_findings live_findings
    route_findings effect_findings secret_findings reuse_findings deny_finding approval_finding
    allow_finding has_approval token_value mem lacks_target fields_contain worst_outcome any
    action_value completed_run execute_steps final_status
reused_ran = (refl, refl)

move_plan-Permitted : ¬ Permitted move_plan live_context
unfolding has_approval mem token_value
move_plan-Permitted p = cc (p.moves refl refl)

evaluate_or_execute-untouched_example :
    (evaluate_or_execute silent empty_controller move_plan live_context none 900 draws 0).0 ≡ 0
evaluate_or_execute-untouched_example =
    evaluate_or_execute-untouched silent empty_controller move_plan live_context none 900 draws 0
      move_plan-Permitted

-- the broker after both missing tokens of the plan were approved
abbrev ready_broker : ApprovalBroker
ready_broker = run empty_controller.approval_broker (
    creates (evaluate_plan none move_plan live_context "pol_1" 1000000).1 "ann" 900 ""
      (field "plan_id" (text "plan_1") (field "request_id" (text "req_1") end)) "apr_1" 1000000
    ∷ approves "apr_1" "bob" none "" 2000000
    ∷ [])

abbrev ready_controller : GovernedExecutionController
ready_controller = record empty_controller { approval_broker = ready_broker }

ready-IsConsistent : Holds IsConsistent ready_broker
ready-IsConsistent = run-IsConsistent empty_controller.approval_broker _ tt

abbrev after_resume : ℕ × GovernedExecutionController × Governed
after_resume =
    resume_with_approval (λ v. "") silent ready_controller move_plan "apr_1" live_context draws 0

abbrev resumed : GovernedExecutionResult
resumed = result_or after_resume.2 none_yet

resumed_ran : (after_resume.2 ≡ ok resumed) × (has_run resumed.outcome ≡ true)
unfolding resume_with_approval binding_error metadata_string string_of get_field resume_bound
    context_with_approvals get_request refresh_expiry is_expired approved_context set_field
    evaluate_or_execute after_decision run_plan governed_result engine_for_context execute
    execute_body validate_plan evaluate_plan finalize plan_findings id_findings live_findings
    route_findings effect_findings secret_findings reuse_findings deny_finding approval_finding
    allow_finding has_approval token_value mem lacks_target contains_secret_marker items_contain
    fields_contain is_label says_secret lower_is lower worst_outcome any action_value completed_run
    execute_steps final_status execute_step result run step create_request new_request store
    write_journal put get get_mutable approve approve_with wanted_tokens missing_tokens granted
    required_approvals named_approvals sorted_set insert_sorted subset keep
resumed_ran = (refl, refl)

resume_with_approval-Backs_example :
    (q : ApprovalRequest) × (get "apr_1" ready_broker.requests ≡ some q)
    × BoundTo (λ v. "") q move_plan live_context
    × ((ctx : PolicyContext) × Backs live_context ctx q 1000000
        × Permitted move_plan ctx
        × HoldsRun (engine_for_context none ctx) move_plan ctx resumed)
resume_with_approval-Backs_example =
    resume_with_approval-Backs (λ v. "") silent ready_controller move_plan "apr_1" live_context
      draws 0 resumed ready-IsConsistent resumed_ran.0 resumed_ran.1

-- the request that the move waits for
abbrev waiting : ApprovalRequest
waiting =
    new_request (evaluate_plan none move_plan live_context "pol_1" 1000000).1 "ann" 900 ""
      (field "plan_id" (text "plan_1") (field "request_id" (text "req_1") end)) "apr_1" 1000000

abbrev waiting_broker : ApprovalBroker
waiting_broker = record { journal = none; requests = ("apr_1", waiting) ∷ [] }

waiting_found : get "apr_1" waiting_broker.requests ≡ some waiting
unfolding get
waiting_found = refl

waiting_asks :
    waiting.required_tokens
    ≡ required_approvals (evaluate_plan none move_plan live_context "pol_1" 1000000).1
unfolding new_request
waiting_asks = refl

waiting_lacks : is_nil (missing_tokens waiting) ≡ false
unfolding missing_tokens keep new_request evaluate_plan finalize plan_findings id_findings
    live_findings route_findings effect_findings secret_findings reuse_findings deny_finding
    approval_finding allow_finding has_approval token_value mem lacks_target contains_secret_marker
    items_contain fields_contain is_label says_secret lower_is lower required_approvals
    named_approvals sorted_set insert_sorted action_value
waiting_lacks = refl

waiting_open : is_open waiting.status ≡ true
unfolding new_request
waiting_open = refl

waiting_time : 3000000 < waiting.expires_at
unfolding new_request
waiting_time = omega arith

move_outcome :
    (evaluate_plan none move_plan live_context "pol_1" 1000000).1.outcome ≡ require_approval
unfolding evaluate_plan finalize plan_findings id_findings live_findings route_findings
    effect_findings secret_findings reuse_findings deny_finding approval_finding allow_finding
    has_approval token_value mem lacks_target contains_secret_marker items_contain fields_contain
    is_label says_secret lower_is lower worst_outcome any action_value
move_outcome = refl

move_stands : (evaluate_plan none move_plan live_context "pol_1" 1000000).1.outcome ≢ deny
move_stands e = cc (e, move_outcome)

approve-Permitted_example :
    (c : PolicyContext) × ((context_with_approvals
        (approve waiting_broker "apr_1" "bob" none "" 3000000).0
        live_context
        "apr_1"
        3000000).1
      ≡ ok c)
    × Permitted move_plan c
approve-Permitted_example =
    approve-Permitted waiting_broker none move_plan live_context "pol_1" "apr_1" "bob" "" 1000000
      3000000 3000000 waiting move_stands waiting_found waiting_asks waiting_open waiting_lacks
      waiting_time waiting_time
