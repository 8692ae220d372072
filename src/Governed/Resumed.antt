-- ===== src/Governed/Resumed.antt =====
-- approval_workflow.py: `resume_with_approval` goes on only under an approval of this plan.
use mathlib.Core.Path.{subst}
use mathlib.Core.Option.{some-injective}
use cyber_hive.Prelude.{
  Bool-cases, Option-cases, string_eq, nat_eq, ok, Result-cases, String, ◌≡◌, inl, inr, true, ◌&&◌,
  none, some, arith, eq_iff,
}
use cyber_hive.Prelude.Dict.{get}
use cyber_hive.Plan.{OrchestrationPlan}
use cyber_hive.Plan.Metadata.{Value}
use cyber_hive.Approval.{
  is_approved, is_expirable, ApprovalRequest, is_expired, context_with_approvals,
}
use cyber_hive.Approval.Keeps.{Holds}
use cyber_hive.Approval.Status.{IsConsistent}
use cyber_hive.Approval.Context.{
  Backs, context_with_approvals-Backs, get_request-live, get_request-over, get_request-missing,
}
use cyber_hive.Policy.{PolicyContext}
use cyber_hive.Policy.Permitted.{Permitted}
use cyber_hive.Execution.{Effects}
use cyber_hive.Governed.{
  has_run, GovernedExecutionResult, GovernedExecutionController, Draws, engine_for_context,
  metadata_string, binding_error, resume_bound, resume_with_approval,
}
use cyber_hive.Governed.Cleared.{HoldsRun, evaluate_or_execute-HoldsRun}

module _ (render : Value → String) where
  -- The request was made by the base's subject for this plan.
  pub record BoundTo (q : ApprovalRequest) (plan : OrchestrationPlan) (base : PolicyContext)
      : Type 0 where
    pub same_subject : q.subject ≡ base.subject
    pub plan_id : metadata_string render q.metadata "plan_id" ≡ some plan.id
    pub request_id : metadata_string render q.metadata "request_id" ≡ some plan.request_id

  binding_error-BoundTo :
      (q : ApprovalRequest) (plan : OrchestrationPlan) (base : PolicyContext)
      → binding_error render q plan base ≡ none
      → (is_approved q.status ≡ true) × BoundTo q plan base
  unfolding binding_error
  binding_error-BoundTo q plan base h =
      elim (Option-cases (metadata_string render q.metadata "plan_id")) [
        | inl missing ↦ absurd (ground arith)
        | inr (p, found) ↦ elim (Option-cases (metadata_string render q.metadata "request_id")) [
          | inl missing ↦ absurd (ground arith)
          | inr (i, found') ↦ (
            ground arith,
            record {
              same_subject = (eq_iff q.subject base.subject).0 (ground arith);
              plan_id = ground (arith, eq_iff p plan.id);
              request_id = ground (arith, eq_iff i plan.request_id);
            },
          )
        ]
      ]

  module _ {W : Type 0} (fx : Effects W) where
    resume_bound-Backs :
        (c : GovernedExecutionController) (plan : OrchestrationPlan) (id : String)
        (base : PolicyContext) (draws : Draws) (w : W) (r : GovernedExecutionResult)
        → Holds IsConsistent c.approval_broker
        → (resume_bound render fx c plan id base draws w none).2 ≡ ok r
        → has_run r.outcome ≡ true
        → (q : ApprovalRequest) × (get id c.approval_broker.requests ≡ some q)
          × ((ctx : PolicyContext) × Backs base ctx q draws.now
              × Permitted plan ctx
              × HoldsRun (engine_for_context c.execution_engine ctx) plan ctx r)
    unfolding resume_bound
    resume_bound-Backs c plan id base draws w r consistent h ran =
        elim (Result-cases (context_with_approvals c.approval_broker base id draws.now).1) [
          | inl (e, raised) ↦ cc (rw (resume_bound, raised) at h)
          | inr (ctx, made) ↦
              let (q, found, backs) =
                context_with_approvals-Backs c.approval_broker base id draws.now ctx consistent
                  made in
              let (allows, holds) =
                evaluate_or_execute-HoldsRun fx
                  (record c {
                    approval_broker =
                        (context_with_approvals c.approval_broker base id draws.now).0;
                  })
                  plan ctx (some ctx.subject) 900 draws w r (rw (resume_bound, made) at h) ran in
              (q, found, (ctx, backs, allows, holds))
        ]

    -- With a broker whose requests are consistent: if `resume_with_approval` answers that it executed, or
    -- ran dry, then the request with the id asked for was made for the subject of the base context and
    -- for this plan and this request of it, it is approved and has not expired, and the policy permits the
    -- plan in the base context with exactly its tokens added; the answer holds a run of the plan.
    pub resume_with_approval-Backs :
        (c : GovernedExecutionController) (plan : OrchestrationPlan) (id : String)
        (base : PolicyContext) (draws : Draws) (w : W) (r : GovernedExecutionResult)
        → Holds IsConsistent c.approval_broker
        → (resume_with_approval render fx c plan id base draws w).2 ≡ ok r
        → has_run r.outcome ≡ true
        → (q : ApprovalRequest) × (get id c.approval_broker.requests ≡ some q)
          × BoundTo q plan base
          × ((ctx : PolicyContext) × Backs base ctx q draws.now
              × Permitted plan ctx
              × HoldsRun (engine_for_context c.execution_engine ctx) plan ctx r)
    unfolding resume_with_approval
    resume_with_approval-Backs c plan id base draws w r consistent h ran =
        elim (Option-cases (get id c.approval_broker.requests)) [
          | inl missing ↦ cc (
              rw (resume_with_approval, get_request-missing c.approval_broker id draws.now missing)
                at h)
          | inr (q, found) ↦ elim (Bool-cases (is_expirable q.status && is_expired q draws.now)) [
            | inl over ↦ cc (
                rw
                  (
                    resume_with_approval,
                    get_request-over c.approval_broker id draws.now q found over,
                  )
                  at h)
            | inr stays ↦
                let is_live = get_request-live c.approval_broker id draws.now q found stays in
                let told = rw (resume_with_approval, is_live, is_live) at h in
                elim (Option-cases (binding_error render q plan base)) [
                  | inr (e, unbound) ↦ cc (rw unbound at told)
                  | inl bound ↦
                      let (q', found', rest) =
                        resume_bound-Backs c plan id base draws w r consistent (rw bound at told)
                          ran in
                      let same = some-injective q' q (cc (found, found')) in
                      (
                        q,
                        found,
                        (binding_error-BoundTo q plan base bound).1,
                        subst
                            (λ x.
                              (ctx : PolicyContext) × Backs base ctx x draws.now
                              × Permitted plan ctx
                              × HoldsRun (engine_for_context c.execution_engine ctx) plan ctx r)
                            same rest,
                      )
                ]
          ]
        ]
