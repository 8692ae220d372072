-- ===== src/Policy/Permitted.antt =====
-- policy_governance.py: the plans that `evaluate_plan` lets pass.
use cyber_hive.Prelude.{
  nat_eq, string_eq, is_nil, any, is_empty, ℕ, String, ◌≡◌, ◌↔◌, true, false, ◌&&◌, ◌||◌, not,
  arith,
}
use cyber_hive.Plan.{is_reject, is_routed, OrchestrationPlan, lacks_target}
use cyber_hive.Plan.Metadata.{fields_contain}
use cyber_hive.Policy.{
  execute_live, data_move_execute, prewarm_execute, secret_process, override_rejected_route,
  PolicyContext, has_approval, is_allowed, worst_outcome, id_findings, live_findings,
  route_findings, effect_findings, secret_findings, reuse_findings, plan_findings, PolicyGuard,
  evaluate_plan,
}
use cyber_hive.Policy.Outcome.{passes, passes-append, is_allowed-passes}

-- What a plan and its context must have.
pub record Permitted (plan : OrchestrationPlan) (ctx : PolicyContext) : Type 0 where
  pub has_id : is_empty plan.id ≡ false
  pub has_request_id : is_empty plan.request_id ≡ false
  pub live : ctx.dry_run ≡ false → has_approval ctx execute_live ≡ true
  pub rejected : is_reject plan.action ≡ true → has_approval ctx override_rejected_route ≡ true
  pub routed : is_routed plan.action ≡ true → lacks_target plan.route_decision ≡ false
  pub moves :
      is_nil plan.data_moves ≡ false
      → ctx.dry_run ≡ false
      → has_approval ctx data_move_execute ≡ true
  pub prewarms :
      is_nil plan.prewarm_plans ≡ false
      → ctx.dry_run ≡ false
      → has_approval ctx prewarm_execute ≡ true
  pub secrets : fields_contain plan.metadata ≡ true → has_approval ctx secret_process ≡ true

module _ (plan : OrchestrationPlan) (ctx : PolicyContext) where
  pub passes-id_findings :
      passes (id_findings plan) ≡ (not (is_empty plan.id) && not (is_empty plan.request_id))
  unfolding id_findings worst_outcome any
  passes-id_findings = ground arith

  passes-live_findings : passes (live_findings ctx) ≡ (ctx.dry_run || has_approval ctx execute_live)
  unfolding live_findings worst_outcome any
  passes-live_findings = ground arith

  pub passes-route_findings : passes (route_findings plan ctx) ≡ (
      (not (is_reject plan.action) || has_approval ctx override_rejected_route)
      && (not (is_routed plan.action) || not (lacks_target plan.route_decision)))
  unfolding route_findings worst_outcome any
  passes-route_findings = ground arith

  passes-effect_findings : passes (effect_findings plan ctx) ≡ (
      (is_nil plan.data_moves || (ctx.dry_run || has_approval ctx data_move_execute))
      && (is_nil plan.prewarm_plans || (ctx.dry_run || has_approval ctx prewarm_execute)))
  unfolding effect_findings worst_outcome any
  passes-effect_findings = ground arith

  passes-secret_findings :
      passes (secret_findings plan ctx)
      ≡ (not (fields_contain plan.metadata) || has_approval ctx secret_process)
  unfolding secret_findings worst_outcome any
  passes-secret_findings = ground arith

  passes-reuse_findings : passes (reuse_findings plan) ≡ true
  unfolding reuse_findings worst_outcome any
  passes-reuse_findings = ground arith

-- The guard allows a plan exactly when it names its ids, a live run is approved, a rejected route is
-- overridden, a routed plan has its target, and the data moves and prewarms of a live run and any
-- secret in the metadata are approved: each by its own token, and a dry run needs no approval but that
-- for a rejected route and for secrets.
pub evaluate_plan-Permitted :
    (guard : PolicyGuard) (plan : OrchestrationPlan) (ctx : PolicyContext) (id : String) (now : ℕ)
    → (is_allowed (evaluate_plan guard plan ctx id now).1 ≡ true) ↔ Permitted plan ctx
unfolding evaluate_plan plan_findings
evaluate_plan-Permitted guard plan ctx id now =
    rw
      (
        is_allowed-passes,
        passes-append,
        passes-append,
        passes-append,
        passes-append,
        passes-append,
        passes-id_findings plan ctx,
        passes-live_findings plan ctx,
        passes-route_findings plan ctx,
        passes-effect_findings plan ctx,
        passes-secret_findings plan ctx,
        passes-reuse_findings plan ctx,
      )
      (
        λ h. record {
          has_id = ground arith;
          has_request_id = ground arith;
          live = λ l. ground arith;
          rejected = λ r. ground arith;
          routed = λ r. ground arith;
          moves = λ m l. ground arith;
          prewarms = λ p l. ground arith;
          secrets = λ s. ground arith;
        },
        λ v. ground (
          arith, v.has_id, v.has_request_id, v.live, v.rejected, v.routed, v.moves, v.prewarms,
          v.secrets,
        ),
      )
