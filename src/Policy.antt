-- ===== src/Policy.antt =====
-- policy_governance.py: the findings, the decisions, and the guard that evaluates plans and exposure
-- requests. Each rule of an evaluation is a function to the findings that it appends.
pub mod Outcome
pub mod Permitted
pub mod Approvals
pub mod Exposing
use Prim.Native.String.{◌++◌ as str_append}
use cyber_hive.Prelude.{
  nat_beq, if◌then◌else◌, nat_eq, string_eq, length, is_nil, any, mem, sorted_set, is_empty, ℕ,
  String, Bool, true, false, ◌&&◌, not, Option, none, some, List, [], ◌∷◌, ◌++◌,
}
use cyber_hive.Plan.{action_value, is_reuse, is_reject, is_routed, OrchestrationPlan, lacks_target}
use cyber_hive.Plan.Metadata.{text, number, Fields, end, field, fields_contain}

pub data PolicyOutcome : Type 0 where
  allow warn require_approval deny : PolicyOutcome

abbrev pub outcome_tag : PolicyOutcome → ℕ
outcome_tag allow = 0
outcome_tag warn = 1
outcome_tag require_approval = 2
outcome_tag deny = 3

abbrev pub outcome_beq : PolicyOutcome → PolicyOutcome → Bool
outcome_beq a b = nat_beq (outcome_tag a) (outcome_tag b)

pub data PolicySeverity : Type 0 where
  info low medium high critical : PolicySeverity

pub data ApprovalToken : Type 0 where
  execute_live data_move_execute prewarm_execute secret_process public_exposure : ApprovalToken
  recording_enable download_enable override_rejected_route : ApprovalToken

unfoldable pub token_value : ApprovalToken → String
token_value execute_live = "execute.live"
token_value data_move_execute = "data.move.execute"
token_value prewarm_execute = "runtime.prewarm.execute"
token_value secret_process = "secret.process"
token_value public_exposure = "exposure.public"
token_value recording_enable = "exposure.recording.enable"
token_value download_enable = "exposure.download.enable"
token_value override_rejected_route = "route.reject.override"

pub record PolicyContext : Type 0 where
  pub subject : String
  pub tenant : Option String
  pub dry_run : Bool
  pub approvals : List String
  pub requested_permissions : List String
  pub environment : String
  pub metadata : Fields

unfoldable pub has_approval : PolicyContext → ApprovalToken → Bool
has_approval ctx token = mem (token_value token) ctx.approvals

pub record PolicyFinding : Type 0 where
  pub rule_id : String
  pub outcome : PolicyOutcome
  pub severity : PolicySeverity
  pub reason : String
  pub required_approval : Option String
  pub metadata : Fields

pub record PolicyDecision : Type 0 where
  pub id : String
  pub outcome : PolicyOutcome
  pub subject : String
  pub dry_run : Bool
  pub created_at : ℕ
  pub findings : List PolicyFinding
  pub metadata : Fields

unfoldable pub is_allowed : PolicyDecision → Bool
is_allowed d = elim d.outcome [ allow ↦ true | warn ↦ true | _ ↦ false ]

-- the approvals that the findings name, empty texts left out
unfoldable pub named_approvals : List PolicyFinding → List String
named_approvals [] = []
named_approvals (f ∷ fs) =
    let rest = named_approvals fs in
    elim f.required_approval [
      | none ↦ rest
      | some token ↦ if is_empty token then rest else token ∷ rest
    ]

unfoldable pub required_approvals : PolicyDecision → List String
unfolding named_approvals
required_approvals d = sorted_set (named_approvals d.findings)

unfoldable pub worst_outcome : List PolicyFinding → PolicyOutcome
worst_outcome findings =
    if any (λ f. outcome_beq f.outcome deny) findings
    then deny
    else if any (λ f. outcome_beq f.outcome require_approval) findings
    then require_approval
    else if any (λ f. outcome_beq f.outcome warn) findings
    then warn
    else allow

unfoldable pub deny_finding : String → String → PolicySeverity → Fields → PolicyFinding
deny_finding rule_id reason severity metadata = record {
  rule_id = rule_id;
  outcome = deny;
  severity = severity;
  reason = reason;
  required_approval = none;
  metadata = metadata;
}

unfoldable pub approval_finding :
    String → String → ApprovalToken → PolicySeverity → Fields → PolicyFinding
approval_finding rule_id reason approval severity metadata = record {
  rule_id = rule_id;
  outcome = require_approval;
  severity = severity;
  reason = reason;
  required_approval = some (token_value approval);
  metadata = metadata;
}

unfoldable pub allow_finding : String → PolicySeverity → String → Fields → PolicyFinding
allow_finding rule_id severity reason metadata = record {
  rule_id = rule_id;
  outcome = allow;
  severity = severity;
  reason = reason;
  required_approval = none;
  metadata = metadata;
}

-- `if test: findings.append(finding)`
abbrev pub when : Bool → PolicyFinding → List PolicyFinding
when true f = f ∷ []
when false f = []

unfoldable pub id_findings : OrchestrationPlan → List PolicyFinding
unfolding deny_finding
id_findings plan =
    when (is_empty plan.id)
      (deny_finding "plan.id.required" "orchestration plan id is required" critical end)
    ++ when (is_empty plan.request_id) (
        deny_finding "plan.request_id.required" "orchestration request id is required" critical end)

unfoldable pub live_findings : PolicyContext → List PolicyFinding
unfolding allow_finding approval_finding has_approval
live_findings ctx =
    if ctx.dry_run
    then allow_finding "dry_run.safe_default" info "dry-run evaluation cannot trigger side effects"
        end
      ∷ []
    else when (not (has_approval ctx execute_live)) (
        approval_finding "live_execution.requires_approval"
          "live execution requires explicit approval" execute_live high end)

unfoldable pub route_findings : OrchestrationPlan → PolicyContext → List PolicyFinding
unfolding deny_finding has_approval
route_findings plan ctx =
    when (is_reject plan.action && not (has_approval ctx override_rejected_route)) (
      deny_finding "route.rejected"
        "scheduler rejected the workload; execution cannot proceed without an explicit override"
        high (field "plan_action" (text (action_value plan.action)) end))
    ++ when (is_routed plan.action && lacks_target plan.route_decision)
        (deny_finding "route.target.required" "routed plans require a target node" high end)

unfoldable pub effect_findings : OrchestrationPlan → PolicyContext → List PolicyFinding
unfolding approval_finding has_approval
effect_findings plan ctx =
    when
      (not (is_nil plan.data_moves) && not ctx.dry_run && not (has_approval ctx data_move_execute))
      (approval_finding "data_moves.require_approval"
        "physical data moves require explicit approval before live execution" data_move_execute high
        (field "move_count" (number (length plan.data_moves)) end))
    ++ when
        (not (is_nil plan.prewarm_plans)
          && not ctx.dry_run
          && not (has_approval ctx prewarm_execute))
        (approval_finding "prewarm.requires_approval"
          "prewarm side effects require explicit approval before live execution" prewarm_execute
          medium (field "prewarm_count" (number (length plan.prewarm_plans)) end))

unfoldable pub secret_findings : OrchestrationPlan → PolicyContext → List PolicyFinding
unfolding approval_finding has_approval
secret_findings plan ctx =
    when (fields_contain plan.metadata && not (has_approval ctx secret_process)) (
      approval_finding "secret.metadata.requires_approval"
        "plan metadata includes secret sensitivity markers" secret_process critical end)

unfoldable pub reuse_findings : OrchestrationPlan → List PolicyFinding
unfolding allow_finding
reuse_findings plan = elim plan.reuse_decision [
  | none ↦ []
  | some action ↦ when (is_reuse plan.action) (
      allow_finding "reuse.short_circuit.allowed" low "cache reuse short-circuits compute execution"
        (field "reuse_action" (text action) end))
]

unfoldable pub plan_findings : OrchestrationPlan → PolicyContext → List PolicyFinding
plan_findings plan ctx =
    id_findings plan
    ++ (live_findings ctx
        ++ (route_findings plan ctx
            ++ (effect_findings plan ctx ++ (secret_findings plan ctx ++ reuse_findings plan))))

-- `PolicyGuard` with its optional journal
abbrev pub PolicyGuard : Type 0
PolicyGuard = Option (List PolicyDecision)

unfoldable pub finalize :
    PolicyGuard
    → PolicyContext
    → List PolicyFinding
    → Fields
    → String
    → ℕ
    → PolicyGuard × PolicyDecision
finalize guard ctx findings metadata id now =
    let d : PolicyDecision = record {
      id = id;
      outcome = worst_outcome findings;
      subject = ctx.subject;
      dry_run = ctx.dry_run;
      created_at = now;
      findings = findings;
      metadata = metadata;
    } in
    (elim guard [ none ↦ none | some journal ↦ some (journal ++ d ∷ []) ], d)

-- `id` is the prefixed time stamp of the decision and `now` the clock.
unfoldable pub evaluate_plan :
    PolicyGuard → OrchestrationPlan → PolicyContext → String → ℕ → PolicyGuard × PolicyDecision
unfolding finalize
evaluate_plan guard plan ctx id now =
    finalize guard ctx (plan_findings plan ctx)
      (field "plan_id" (text plan.id) (field "plan_action" (text (action_value plan.action)) end))
      id now
