-- ===== src/Policy/Approvals.antt =====
-- policy_governance.py: the approvals that a decision asks for are the ones that are missing.
use cyber_hive.Prelude.{
  Bool-cases, nat_eq, string_eq, is_nil, any, mem, mem-append, subset, subset-mem, sorted_set,
  mem-sorted_set, ℕ, String, ◌≡◌, refl, ◌∙◌, ◌≢◌, inl, inr, Bool, true, false, ◌&&◌, ◌||◌, List, [],
  ◌∷◌, ◌++◌, arith,
}
use cyber_hive.Plan.{OrchestrationPlan}
use cyber_hive.Plan.Metadata.{fields_contain}
use cyber_hive.Policy.{
  deny, ApprovalToken, execute_live, data_move_execute, prewarm_execute, secret_process,
  override_rejected_route, token_value, PolicyContext, has_approval, PolicyFinding, is_allowed,
  named_approvals, required_approvals, worst_outcome, approval_finding, id_findings, live_findings,
  route_findings, effect_findings, secret_findings, reuse_findings, plan_findings, PolicyGuard,
  evaluate_plan,
}
use cyber_hive.Policy.Outcome.{passes, not_denied, not_denied-append}
use cyber_hive.Policy.Permitted.{
  Permitted, passes-id_findings, passes-route_findings, evaluate_plan-Permitted,
}

named_approvals-append :
    (fs gs : List PolicyFinding)
    → named_approvals (fs ++ gs) ≡ named_approvals fs ++ named_approvals gs
unfolding named_approvals
named_approvals-append [] gs = refl
named_approvals-append (f ∷ fs) gs = ground (arith, named_approvals-append fs gs)

-- A text is among the approvals that the findings name.
abbrev names : List PolicyFinding → String → Bool
names fs t = mem t (named_approvals fs)

names-append :
    (fs gs : List PolicyFinding) (t : String) → names (fs ++ gs) t ≡ (names fs t || names gs t)
names-append fs gs t =
    rw (named_approvals-append fs gs) (mem-append t (named_approvals fs) (named_approvals gs))

module _ (plan : OrchestrationPlan) (ctx : PolicyContext) where
  names-live :
      ctx.dry_run ≡ false
      → has_approval ctx execute_live ≡ false
      → names (live_findings ctx) (token_value execute_live) ≡ true
  unfolding live_findings named_approvals mem token_value
  names-live live missing = rw (live, missing)

  names-moves :
      is_nil plan.data_moves ≡ false
      → ctx.dry_run ≡ false
      → has_approval ctx data_move_execute ≡ false
      → names (effect_findings plan ctx) (token_value data_move_execute) ≡ true
  unfolding effect_findings named_approvals mem token_value
  names-moves moves live missing = rw (moves, live, missing) refl

  names-prewarm :
      is_nil plan.prewarm_plans ≡ false
      → ctx.dry_run ≡ false
      → has_approval ctx prewarm_execute ≡ false
      → names (effect_findings plan ctx) (token_value prewarm_execute) ≡ true
  unfolding effect_findings
  names-prewarm prewarms live missing =
      rw (names-append, prewarms, live, missing)
        (unfold approval_finding named_approvals mem token_value in ground arith)

  names-secret :
      fields_contain plan.metadata ≡ true
      → has_approval ctx secret_process ≡ false
      → names (secret_findings plan ctx) (token_value secret_process) ≡ true
  unfolding secret_findings named_approvals mem token_value
  names-secret secret missing = rw (secret, missing)

  names-plan_findings :
      (t : String)
      → names (plan_findings plan ctx) t ≡ (
          names (id_findings plan) t
          || (names (live_findings ctx) t
              || (names (route_findings plan ctx) t
                  || (names (effect_findings plan ctx) t
                      || (names (secret_findings plan ctx) t || names (reuse_findings plan) t)))))
  unfolding plan_findings
  names-plan_findings t = rw (names-append, names-append, names-append, names-append, names-append)

  not_denied-id_findings : not_denied (id_findings plan) ≡ passes (id_findings plan)
  unfolding id_findings worst_outcome any
  not_denied-id_findings = ground arith

  not_denied-route_findings :
      not_denied (route_findings plan ctx) ≡ passes (route_findings plan ctx)
  unfolding route_findings worst_outcome any
  not_denied-route_findings = ground arith

  not_denied-parts :
      not_denied (plan_findings plan ctx) ≡ true
      → (passes (id_findings plan) ≡ true) × (passes (route_findings plan ctx) ≡ true)
  unfolding plan_findings
  not_denied-parts h =
      let split : (not_denied (id_findings plan)
            && (not_denied (live_findings ctx)
                && (not_denied (route_findings plan ctx)
                    && not_denied (
                        effect_findings plan ctx
                        ++ (secret_findings plan ctx ++ reuse_findings plan)))))
          ≡ true =
        rw (not_denied-append, not_denied-append, not_denied-append) at h in
      (ground (arith, not_denied-id_findings), ground (arith, not_denied-route_findings))

-- The context with other approvals.
abbrev pub with_approvals : PolicyContext → List String → PolicyContext
with_approvals ctx tokens = record ctx { approvals = tokens }

module _ (plan : OrchestrationPlan) (ctx : PolicyContext) (tokens : List String)
    (kept : subset ctx.approvals tokens ≡ true)
    (given : subset (sorted_set (named_approvals (plan_findings plan ctx))) tokens ≡ true) where
  gains :
      (t : ApprovalToken)
      → (has_approval ctx t ≡ false → names (plan_findings plan ctx) (token_value t) ≡ true)
      → has_approval (with_approvals ctx tokens) t ≡ true
  unfolding has_approval
  gains t named = elim (Bool-cases (mem (token_value t) ctx.approvals)) [
    | inl had ↦ subset-mem (token_value t) ctx.approvals tokens kept had
    | inr missing ↦
        subset-mem (token_value t) _ tokens given (
          mem-sorted_set (token_value t) (named_approvals (plan_findings plan ctx)) ∙ named missing)
  ]

  Permitted-with_approvals :
      not_denied (plan_findings plan ctx) ≡ true → Permitted plan (with_approvals ctx tokens)
  Permitted-with_approvals h =
      let (ids, routes) = not_denied-parts plan ctx h in
      let ids' = (passes-id_findings plan ctx) in
      let routes' = passes-route_findings plan ctx in
      record {
        has_id = ground arith;
        has_request_id = ground arith;
        live = λ l.
            gains execute_live
              (λ m. rw names-plan_findings (ground (arith, names-live plan ctx l m)));
        rejected = λ r. gains override_rejected_route (λ m. absurd (ground arith));
        routed = λ r. ground arith;
        moves = λ n l.
            gains data_move_execute
              (λ m. rw names-plan_findings (ground (arith, names-moves plan ctx n l m)));
        prewarms = λ n l.
            gains prewarm_execute
              (λ m. rw names-plan_findings (ground (arith, names-prewarm plan ctx n l m)));
        secrets = λ s.
            gains secret_process
              (λ m. rw names-plan_findings (ground (arith, names-secret plan ctx s m)));
      }

-- Approving what a decision asks for is enough: if a plan is not denied, then under any approvals that
-- keep the context's own and add the ones that the decision requires, the guard allows the plan.
pub evaluate_plan-approved :
    (guard later : PolicyGuard) (plan : OrchestrationPlan) (ctx : PolicyContext)
    (tokens : List String) (id id' : String) (now now' : ℕ)
    → (evaluate_plan guard plan ctx id now).1.outcome ≢ deny
    → subset ctx.approvals tokens ≡ true
    → subset (required_approvals (evaluate_plan guard plan ctx id now).1) tokens ≡ true
    → is_allowed (evaluate_plan later plan (with_approvals ctx tokens) id' now').1 ≡ true
unfolding evaluate_plan required_approvals
evaluate_plan-approved guard later plan ctx tokens id id' now now' clear kept given =
    (evaluate_plan-Permitted later plan (with_approvals ctx tokens) id' now').1
      (Permitted-with_approvals plan ctx tokens kept given (ground arith))
