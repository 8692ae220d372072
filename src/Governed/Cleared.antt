-- ===== src/Governed/Cleared.antt =====
-- approval_workflow.py: what `evaluate_or_execute` runs, the policy permits.
use mathlib.Core.Path.{subst}
use cyber_hive.Prelude.{
  if◌then◌else◌, Bool-cases, string_eq, nat_eq, ok, ok-injective, Result-cases, ℕ, String, ◌≡◌,
  refl, ◌↔◌, inl, inr, true, false, Option, some, arith,
}
use cyber_hive.Plan.{OrchestrationPlan}
use cyber_hive.Approval.{ApprovalBroker}
use cyber_hive.Policy.{
  PolicyOutcome, allow, warn, require_approval, deny, PolicyContext, PolicyDecision, is_allowed,
  PolicyGuard, evaluate_plan,
}
use cyber_hive.Policy.Permitted.{Permitted, evaluate_plan-Permitted}
use cyber_hive.Execution.Engine.{execute}
use cyber_hive.Execution.{ExecutionRun, Effects, ExecutionEngine}
use cyber_hive.Execution.Runs.{Reports, execute-Reports}
use cyber_hive.Governed.{
  plain, executed, has_run, GovernedExecutionResult, GovernedExecutionController, Draws,
  engine_for_context, governed_result, ask_approval, requester, run_plan, after_decision,
  evaluate_or_execute,
}

-- The result holds a run of the plan by this engine, live or dry as the context says.
pub record HoldsRun (engine : ExecutionEngine) (plan : OrchestrationPlan) (ctx : PolicyContext)
    (r : GovernedExecutionResult) : Type 0 where
  pub mode : r.outcome ≡ (if ctx.dry_run then plain else executed)
  pub run : (run : ExecutionRun) × (r.run ≡ some run) × Reports engine plan ctx.dry_run run

module _ {W : Type 0} (fx : Effects W) where
  run_plan-HoldsRun :
      (engine : ExecutionEngine) (plan : OrchestrationPlan) (ctx : PolicyContext)
      (d : PolicyDecision) (draws : Draws) (w : W) (r : GovernedExecutionResult)
      → (run_plan fx engine plan ctx d draws w).1 ≡ ok r
      → HoldsRun engine plan ctx r
  unfolding run_plan governed_result
  run_plan-HoldsRun engine plan ctx d draws w r h =
      elim (Result-cases
        (execute fx engine plan ctx.dry_run draws.run_id draws.now draws.completed draws.completed
          w).1) [
            | inl (e, raised) ↦ cc (rw (run_plan, raised) at h)
            | inr (run, returned) ↦
                let same = ok-injective _ _ r refl (rw (run_plan, returned) at h) in
                subst (HoldsRun engine plan ctx) same (record {
                  mode = refl;
                  run = (
                    run,
                    refl,
                    execute-Reports fx engine plan ctx.dry_run draws.run_id draws.now
                        draws.completed draws.completed w run returned,
                  );
                })
          ]

  ask_approval-waits :
      (b : ApprovalBroker) (plan : OrchestrationPlan) (d : PolicyDecision) (by_whom : String)
      (ttl : ℕ) (draws : Draws) (r : GovernedExecutionResult)
      → (ask_approval b plan d by_whom ttl draws).1 ≡ ok r
      → has_run r.outcome ≡ false
  unfolding ask_approval governed_result
  ask_approval-waits b plan d by_whom ttl draws r h = ground arith

  module _ (c : GovernedExecutionController) (plan : OrchestrationPlan) (ctx : PolicyContext)
      (requested_by : Option String) (ttl : ℕ) (draws : Draws) where
    after_decision-HoldsRun :
        (d : PolicyDecision) (o : PolicyOutcome) (w : W) (r : GovernedExecutionResult)
        → d.outcome ≡ o
        → (after_decision fx c plan ctx requested_by ttl draws d o w).2 ≡ ok r
        → has_run r.outcome ≡ true
        → (is_allowed d ≡ true) × HoldsRun (engine_for_context c.execution_engine ctx) plan ctx r
    unfolding after_decision governed_result is_allowed
    after_decision-HoldsRun d deny w r e h ran = ground arith
    after_decision-HoldsRun d require_approval w r e h ran = cc (
      ran,
      ask_approval-waits c.approval_broker plan d (requester requested_by ctx) ttl draws r h,
    )
    after_decision-HoldsRun d allow w r e h ran = (
      rw e refl,
      run_plan-HoldsRun (engine_for_context c.execution_engine ctx) plan ctx d draws w r h,
    )
    after_decision-HoldsRun d warn w r e h ran = (
      rw e refl,
      run_plan-HoldsRun (engine_for_context c.execution_engine ctx) plan ctx d draws w r h,
    )

    after_decision-untouched :
        (d : PolicyDecision) (o : PolicyOutcome) (w : W)
        → d.outcome ≡ o
        → is_allowed d ≡ false
        → (after_decision fx c plan ctx requested_by ttl draws d o w).0 ≡ w
    unfolding after_decision is_allowed
    after_decision-untouched d deny w e h = refl
    after_decision-untouched d require_approval w e h = refl
    after_decision-untouched d allow w e h = cc (rw e at h)
    after_decision-untouched d warn w e h = cc (rw e at h)

  module _ (c : GovernedExecutionController) (plan : OrchestrationPlan) (ctx : PolicyContext)
      (requested_by : Option String) (ttl : ℕ) (draws : Draws) where
    -- the guard's answer, and the controller after it
    abbrev judged : PolicyGuard × PolicyDecision
    judged = evaluate_plan c.policy_guard plan ctx draws.decision_id draws.now

    Permitted-judged : (is_allowed judged.1 ≡ true) ↔ Permitted plan ctx
    Permitted-judged = evaluate_plan-Permitted c.policy_guard plan ctx draws.decision_id draws.now

    -- If `evaluate_or_execute` answers that it executed, or ran dry, then the policy permits the plan in
    -- this context, the answer says live or dry as the context does, and it holds a run that reports the
    -- plan under the engine of the context.
    pub evaluate_or_execute-HoldsRun :
        (w : W) (r : GovernedExecutionResult)
        → (evaluate_or_execute fx c plan ctx requested_by ttl draws w).2 ≡ ok r
        → has_run r.outcome ≡ true
        → Permitted plan ctx × HoldsRun (engine_for_context c.execution_engine ctx) plan ctx r
    unfolding evaluate_or_execute
    evaluate_or_execute-HoldsRun w r h ran =
        let (passed, holds) =
          after_decision-HoldsRun (record c { policy_guard = judged.0 }) plan ctx requested_by ttl
            draws judged.1 judged.1.outcome w r refl h ran in
        (Permitted-judged.0 passed, holds)

    -- If the policy does not permit the plan in the context, `evaluate_or_execute` leaves the bus, the
    -- journal and whatever else the effects reach as they were, whether it answers or raises.
    pub evaluate_or_execute-untouched :
        (w : W)
        → ¬ Permitted plan ctx
        → (evaluate_or_execute fx c plan ctx requested_by ttl draws w).0 ≡ w
    unfolding evaluate_or_execute
    evaluate_or_execute-untouched w barred =
        after_decision-untouched (record c { policy_guard = judged.0 }) plan ctx requested_by ttl
          draws judged.1 judged.1.outcome w refl
          (elim (Bool-cases (is_allowed judged.1)) [
            | inl passed ↦ absurd (barred (Permitted-judged.0 passed))
            | inr stopped ↦ stopped
          ])
