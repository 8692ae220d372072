-- ===== src/Approval/Context.antt =====
-- approval_workflow.py: what a context with approvals shows of the request it was made from.
use mathlib.Core.Path.{ap, subst}
use cyber_hive.Prelude.{
  Bool-cases, Option-cases, string_eq, nat_eq, mem, mem-append, subset, subset-mem, subset_of_mem,
  mem-sorted_set, ok, raise, ok-injective, ℕ, ◌<◌, String, ◌≡◌, refl, inl, inr, true, false, ◌&&◌,
  ◌||◌, none, some, ◌++◌, arith,
}
use cyber_hive.Prelude.Dict.{get, Each-get}
use cyber_hive.Policy.{PolicyContext}
use cyber_hive.Approval.{
  ApprovalStatus, open_request, partially_approved, approved, denied, expired, cancelled,
  is_approved, is_expirable, request_not_found, ApprovalRequest, is_expired, ApprovalBroker,
  refresh_expiry, get_request, approved_context, context_with_approvals,
}
use cyber_hive.Approval.Keeps.{Holds}
use cyber_hive.Approval.Status.{IsConsistent}

is_approved_iff : (s : ApprovalStatus) → is_approved s ≡ true → s ≡ approved
is_approved_iff open_request h = ground arith
is_approved_iff partially_approved h = ground arith
is_approved_iff approved h = refl
is_approved_iff denied h = ground arith
is_approved_iff expired h = ground arith
is_approved_iff cancelled h = ground arith

expirable_of_approved : (s : ApprovalStatus) → is_approved s ≡ true → is_expirable s ≡ true
expirable_of_approved s h = ap is_expirable (is_approved_iff s h)

-- The request `r` is approved and runs at `now`, and the context `c` is `base` with its tokens.
pub record Backs (base c : PolicyContext) (r : ApprovalRequest) (now : ℕ) : Type 0 where
  pub is_granted : r.status ≡ approved
  pub running : now < r.expires_at
  pub adds : (t : String) → mem t c.approvals ≡ (mem t base.approvals || mem t r.granted_tokens)
  pub covers : subset r.required_tokens c.approvals ≡ true
  pub same_subject : c.subject ≡ base.subject
  pub same_permissions : c.requested_permissions ≡ base.requested_permissions

pub approvals_of_context :
    (base : PolicyContext) (r : ApprovalRequest) (t : String)
    → mem t (approved_context base r).approvals ≡ (mem t base.approvals || mem t r.granted_tokens)
unfolding approved_context
approvals_of_context base r t = cc (
  mem-sorted_set t (base.approvals ++ r.granted_tokens),
  mem-append t base.approvals r.granted_tokens,
)

approved_context-Backs :
    (base : PolicyContext) (id : String) (r : ApprovalRequest) (now : ℕ)
    → IsConsistent id r
    → is_approved r.status ≡ true
    → is_expired r now ≡ false
    → Backs base (approved_context base r) r now
unfolding is_expired approved_context
approved_context-Backs base id r now c done early =
    let is = is_approved_iff r.status done in
    record {
      is_granted = is;
      running = ground arith;
      adds = approvals_of_context base r;
      covers = subset_of_mem r.required_tokens _ (λ t m. ground (
        arith,
        approvals_of_context base r t,
        subset-mem t r.required_tokens r.granted_tokens (c.complete is) m,
      ));
      same_subject = refl;
      same_permissions = refl;
    }

-- In a broker whose requests are consistent, a context that `context_with_approvals` returns stands on a
-- stored request with the id asked for: that request is approved and has not reached its expiry, and the
-- context is the base context with exactly the request's granted tokens added, which cover every token
-- that the request requires.
pub context_with_approvals-Backs :
    (b : ApprovalBroker) (base : PolicyContext) (id : String) (now : ℕ) (c : PolicyContext)
    → Holds IsConsistent b
    → (context_with_approvals b base id now).1 ≡ ok c
    → (r : ApprovalRequest) × (get id b.requests ≡ some r) × Backs base c r now
unfolding context_with_approvals get_request refresh_expiry
context_with_approvals-Backs b base id now c h made = elim (Option-cases (get id b.requests)) [
  | inl missing ↦ cc (rw (context_with_approvals, get_request, missing) at made)
  | inr (r, found) ↦
      let told = rw (context_with_approvals, get_request, found) at made in
      elim (Bool-cases (is_expirable r.status && is_expired r now)) [
        | inl over ↦ cc (rw (refresh_expiry, over) at told)
        | inr stays ↦
            let asked = rw (refresh_expiry, stays) at told in
            elim (Bool-cases (is_approved r.status)) [
              | inr other ↦ cc (rw other at asked)
              | inl done ↦
                  let same =
                    ok-injective (ok (approved_context base r)) (approved_context base r) c refl
                      (rw done at asked) in
                  let backs =
                    approved_context-Backs base id r now
                      (Each-get IsConsistent id r b.requests h found) done
                      (ground (arith, expirable_of_approved r.status done)) in
                  (r, found, subst (λ x. Backs base x r now) same backs)
            ]
      ]
]

pub get_request-live :
    (b : ApprovalBroker) (id : String) (now : ℕ) (q : ApprovalRequest)
    → get id b.requests ≡ some q
    → (is_expirable q.status && is_expired q now) ≡ false
    → get_request b id now ≡ (b, ok q)
unfolding get_request refresh_expiry
get_request-live b id now q found stays = rw (get_request, found, refresh_expiry, stays) refl

pub get_request-over :
    (b : ApprovalBroker) (id : String) (now : ℕ) (q : ApprovalRequest)
    → get id b.requests ≡ some q
    → (is_expirable q.status && is_expired q now) ≡ true
    → (get_request b id now).1 ≡ ok (record q { status = expired })
unfolding get_request refresh_expiry
get_request-over b id now q found over = rw (get_request, found, refresh_expiry, over) refl

pub get_request-missing :
    (b : ApprovalBroker) (id : String) (now : ℕ)
    → get id b.requests ≡ none
    → get_request b id now ≡ (b, raise (request_not_found id))
unfolding get_request
get_request-missing b id now missing = rw (get_request, missing) refl
