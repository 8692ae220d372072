-- ===== src/Examples/Decisions.antt =====
-- policy_governance.py at concrete inputs: a live data move of secret data.
use cyber_hive.Prelude.{
  string_eq, nat_eq, any, mem, subset, insert_sorted, sorted_set, String, ◌≡◌, refl, ◌≢◌, ◌↔◌, true,
  false, none, some, List, [], ◌∷◌,
}
use cyber_hive.Plan.{route, action_value, OrchestrationPlan, lacks_target}
use cyber_hive.Plan.Metadata.{
  text, mapping, sequence, nil, cons, end, field, lower, lower_is, says_secret, is_label,
  contains_secret_marker, items_contain, fields_contain,
}
use cyber_hive.Policy.{
  require_approval, deny, token_value, PolicyContext, has_approval, is_allowed, named_approvals,
  required_approvals, worst_outcome, deny_finding, approval_finding, allow_finding, id_findings,
  live_findings, route_findings, effect_findings, secret_findings, reuse_findings, plan_findings,
  finalize, evaluate_plan,
}
use cyber_hive.Policy.Permitted.{Permitted, evaluate_plan-Permitted}
use cyber_hive.Policy.Approvals.{with_approvals, evaluate_plan-approved}

abbrev pub move_plan : OrchestrationPlan
move_plan = record {
  id = "plan_1";
  request_id = "req_1";
  action = route;
  reason = "near the data";
  created_at = 0;
  reuse_decision = none;
  route_decision =
      some (record { request_id = "req_1"; target_node = some "edge-1"; reason = "near" });
  data_moves =
      record {
        object_id = "obj_1";
        action = "replicate";
        from_tier = none;
        to_tier = "hot";
        replicas = 1;
        target_devices = "nas" ∷ [];
        reason = "near";
      }
      ∷ [];
  prewarm_plans = [];
  steps =
      record { name = "data_moves"; status = "planned"; reason = "1 move"; metadata = end }
      ∷ record { name = "route"; status = "planned"; reason = "edge-1"; metadata = end }
      ∷ [];
  metadata =
      field "inputs" (sequence (cons (mapping (field "Sensitivity" (text "SECRET") end)) nil)) end;
}

abbrev pub live_context : PolicyContext
live_context = record {
  subject = "ann";
  tenant = none;
  dry_run = false;
  approvals = "execute.live" ∷ [];
  requested_permissions = [];
  environment = "local";
  metadata = end;
}

evaluate_plan-Permitted_example :
    (is_allowed (evaluate_plan none move_plan live_context "pol_1" 5).1 ≡ true)
    ↔ Permitted move_plan live_context
evaluate_plan-Permitted_example = evaluate_plan-Permitted none move_plan live_context "pol_1" 5

abbrev all_tokens : List String
all_tokens = "data.move.execute" ∷ "execute.live" ∷ "secret.process" ∷ []

outcome_of_move : (evaluate_plan none move_plan live_context "pol_1" 5).1.outcome ≡ require_approval
unfolding evaluate_plan finalize plan_findings id_findings live_findings route_findings
    effect_findings secret_findings reuse_findings deny_finding approval_finding allow_finding
    has_approval token_value mem lacks_target contains_secret_marker items_contain fields_contain
    is_label says_secret lower_is lower worst_outcome any action_value
outcome_of_move = refl

not_denied_move : (evaluate_plan none move_plan live_context "pol_1" 5).1.outcome ≢ deny
not_denied_move e = cc (e, outcome_of_move)

covered :
    subset (required_approvals (evaluate_plan none move_plan live_context "pol_1" 5).1) all_tokens
    ≡ true
unfolding evaluate_plan finalize plan_findings id_findings live_findings route_findings
    effect_findings secret_findings reuse_findings deny_finding approval_finding allow_finding
    has_approval token_value mem lacks_target contains_secret_marker items_contain fields_contain
    is_label says_secret lower_is lower required_approvals named_approvals sorted_set insert_sorted
    subset action_value
covered = refl

kept_tokens : subset live_context.approvals all_tokens ≡ true
unfolding subset mem
kept_tokens = refl

evaluate_plan-approved_example :
    is_allowed (evaluate_plan none move_plan (with_approvals live_context all_tokens) "pol_2" 9).1
    ≡ true
evaluate_plan-approved_example =
    evaluate_plan-approved none none move_plan live_context all_tokens "pol_1" "pol_2" 5 9
      not_denied_move kept_tokens covered
