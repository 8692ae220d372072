-- ===== src/Governed/Approving.antt =====
-- approval_workflow.py and policy_governance.py: granting what a request asks for is enough.
use cyber_hive.Prelude.{
  string_eq, nat_eq, is_nil, keep, mem, mem-append, subset, subset_of_mem, insert_sorted,
  sorted_set, mem-sorted_set, mem-keep, ok, ℕ, ◌<◌, String, ◌≡◌, refl, ◌≢◌, Bool, true, false, ◌&&◌,
  ◌||◌, not, none, some, List, [], ◌∷◌, ◌++◌, arith, eq_refl,
}
use cyber_hive.Prelude.Dict.{get, get-put}
use cyber_hive.Approval.{
  approved, is_open, ApprovalRequest, missing_tokens, is_expired, ApprovalBroker, store,
  get_mutable, granted, approve_with, wanted_tokens, approve, approved_context,
  context_with_approvals,
}
use cyber_hive.Approval.Context.{approvals_of_context, get_request-live}
use cyber_hive.Plan.{OrchestrationPlan}
use cyber_hive.Policy.{
  deny, PolicyContext, has_approval, required_approvals, PolicyGuard, evaluate_plan,
}
use cyber_hive.Policy.Permitted.{Permitted, evaluate_plan-Permitted}
use cyber_hive.Policy.Approvals.{with_approvals, evaluate_plan-approved}

is_nil-insert_sorted : (t : String) (xs : List String) → is_nil (insert_sorted t xs) ≡ false
unfolding insert_sorted
is_nil-insert_sorted t [] = refl
is_nil-insert_sorted t (x ∷ xs) = ground arith

is_nil-sorted_set : (xs : List String) → is_nil (sorted_set xs) ≡ is_nil xs
unfolding sorted_set
is_nil-sorted_set [] = refl
is_nil-sorted_set (x ∷ xs) = is_nil-insert_sorted x (sorted_set xs)

nil_of_all :
    (test : String → Bool) (xs : List String)
    → ((t : String) → mem t xs ≡ true → test t ≡ false)
    → is_nil (keep test xs) ≡ true
unfolding keep mem
nil_of_all test [] h = refl
nil_of_all test (x ∷ xs) h =
    ground (arith, h x, eq_refl x, nil_of_all test xs (λ t m. h t (ground arith)))

module _ (q : ApprovalRequest) where
  -- what `approve` grants when no tokens are named
  abbrev all_missing : List String
  all_missing = sorted_set (missing_tokens q)

  mem-all_missing :
      (t : String) → mem t all_missing ≡ (mem t q.required_tokens && not (mem t q.granted_tokens))
  unfolding missing_tokens
  mem-all_missing t =
      rw
        (
          mem-sorted_set t (missing_tokens q),
          mem-keep (λ token. not (mem token q.granted_tokens)) t q.required_tokens,
        )
        refl

  fits-all_missing : is_nil (keep (λ token. not (mem token q.required_tokens)) all_missing) ≡ true
  fits-all_missing =
      nil_of_all (λ token. not (mem token q.required_tokens)) all_missing
        (λ t m. ground (arith, mem-all_missing t))

  covered_by_all :
      (t : String)
      → mem t q.required_tokens ≡ true
      → mem t (sorted_set (q.granted_tokens ++ all_missing)) ≡ true
  covered_by_all t m = ground (
    arith,
    mem-sorted_set t (q.granted_tokens ++ all_missing),
    mem-append t q.granted_tokens all_missing,
    mem-all_missing t,
  )

  granted-all :
      (approver reason : String) (now : ℕ)
      → (granted q all_missing approver reason now).status ≡ approved
  unfolding granted
  granted-all approver reason now =
      rw
        (subset_of_mem q.required_tokens (sorted_set (q.granted_tokens ++ all_missing))
          covered_by_all)
        refl

approve-all :
    (b : ApprovalBroker) (id approver reason : String) (now : ℕ) (q : ApprovalRequest)
    → get id b.requests ≡ some q
    → is_open q.status ≡ true
    → now < q.expires_at
    → is_nil (missing_tokens q) ≡ false
    → approve b id approver none reason now ≡ (
      store b id "approval.approved" (granted q (all_missing q) approver reason now),
      ok (granted q (all_missing q) approver reason now),
    )
unfolding approve get_mutable approve_with wanted_tokens
approve-all b id approver reason now q found live early wanting =
    rw
      (
        approve,
        get_mutable,
        get_request-live b id now q found (unfold is_expired in ground arith),
        live,
        approve_with,
        is_nil-sorted_set (missing_tokens q),
        wanting,
        fits-all_missing q,
      )
      refl

Permitted-approved_context :
    (plan : OrchestrationPlan) (ctx : PolicyContext) (q : ApprovalRequest)
    → Permitted plan (with_approvals ctx (approved_context ctx q).approvals)
    → Permitted plan (approved_context ctx q)
unfolding approved_context has_approval
Permitted-approved_context plan ctx q p = record {
  has_id = p.has_id;
  has_request_id = p.has_request_id;
  live = p.live;
  rejected = p.rejected;
  routed = p.routed;
  moves = p.moves;
  prewarms = p.prewarms;
  secrets = p.secrets;
}

subset-approvals :
    (ctx : PolicyContext) (q : ApprovalRequest) (wanted : List String)
    → ((t : String) → mem t wanted ≡ true → (mem t ctx.approvals || mem t q.granted_tokens) ≡ true)
    → subset wanted (approved_context ctx q).approvals ≡ true
subset-approvals ctx q wanted h =
    subset_of_mem wanted (approved_context ctx q).approvals
      (λ t m. ground (arith, approvals_of_context ctx q t, h t m))

granted_tokens-all :
    (q : ApprovalRequest) (approver reason : String) (now : ℕ) (t : String)
    → mem t q.required_tokens ≡ true
    → mem t (granted q (all_missing q) approver reason now).granted_tokens ≡ true
unfolding granted
granted_tokens-all q approver reason now t m = covered_by_all q t m

context-all :
    (b : ApprovalBroker) (ctx : PolicyContext) (id : String) (q : ApprovalRequest) (now : ℕ)
    → get id b.requests ≡ some q
    → q.status ≡ approved
    → now < q.expires_at
    → (context_with_approvals b ctx id now).1 ≡ ok (approved_context ctx q)
unfolding context_with_approvals
context-all b ctx id q now found done early =
    rw
      (
        context_with_approvals,
        get_request-live b id now q found (unfold is_expired in ground arith),
        done,
      )
      refl

-- Suppose the guard did not deny a plan, and a request for what its decision requires is open and misses a
-- token. If one approver then grants all that is missing before the request expires, the broker makes a
-- context from it, at any later time before the expiry, and the policy permits the plan in that context.
pub approve-Permitted :
    (b : ApprovalBroker) (guard : PolicyGuard) (plan : OrchestrationPlan) (ctx : PolicyContext)
    (decision_id id approver reason : String) (decided now later : ℕ) (q : ApprovalRequest)
    → (evaluate_plan guard plan ctx decision_id decided).1.outcome ≢ deny
    → get id b.requests ≡ some q
    → q.required_tokens ≡ required_approvals (evaluate_plan guard plan ctx decision_id decided).1
    → is_open q.status ≡ true
    → is_nil (missing_tokens q) ≡ false
    → now < q.expires_at
    → later < q.expires_at
    → (c : PolicyContext) × ((context_with_approvals
          (approve b id approver none reason now).0
          ctx
          id
          later).1
        ≡ ok c)
      × Permitted plan c
unfolding store
approve-Permitted b guard plan ctx decision_id id approver reason decided now later q clear found
      asks live wanting early in_time =
    let q' = granted q (all_missing q) approver reason now in
    let b' = store b id "approval.approved" q' in
    let found' : get id b'.requests ≡ some q' = rw (get-put id id q' b.requests, eq_refl id) refl in
    let allows =
      evaluate_plan-approved guard guard plan ctx (approved_context ctx q').approvals decision_id
        decision_id decided decided clear
        (subset-approvals ctx q' ctx.approvals (λ t m. ground (arith, m)))
        (subset-approvals ctx q'
          (required_approvals (evaluate_plan guard plan ctx decision_id decided).1)
          (λ t m. ground (arith, granted_tokens-all q approver reason now t (rw asks m)))) in
    (
      approved_context ctx q',
      rw (approve-all b id approver reason now q found live early wanting) (
          context-all b' ctx id q' later found' (granted-all q approver reason now)
            (unfold granted in in_time)),
      Permitted-approved_context plan ctx q' (
          (evaluate_plan-Permitted guard plan
              (with_approvals ctx (approved_context ctx q').approvals) decision_id decided).0
            allows),
    )
