-- ===== src/Approval/Status.antt =====
-- approval_workflow.py: the status of a request against the tokens that it was granted.
use cyber_hive.Prelude.{
  nat_eq, string_eq, is_nil, keep, All, mem, mem-append, subset, mem-sorted_set, ℕ, String, ◌≡◌,
  refl, Bool, true, false, not, List, [], ◌∷◌, ◌++◌, arith,
}
use text.Mathlib.TextEquality.{eq_iff}
use cyber_hive.Approval.{
  open_request, partially_approved, approved, ApprovalRequest, ApprovalBroker, new_request, granted,
  denied_request, Call, creates, approves, denies, cancels, gets, lists, asks_context, run,
}
use cyber_hive.Approval.Keeps.{IsKept, Holds, Makes, Holds-run}

-- The request stands under its id, was granted only tokens that it requires, and is approved only with
-- all of them, partially approved only while one is missing, and open only before any is granted.
pub record IsConsistent (k : String) (r : ApprovalRequest) : Type 0 where
  pub own_id : r.id ≡ k
  pub in_scope : (t : String) → mem t r.granted_tokens ≡ true → mem t r.required_tokens ≡ true
  pub complete : r.status ≡ approved → subset r.required_tokens r.granted_tokens ≡ true
  pub partial : r.status ≡ partially_approved → subset r.required_tokens r.granted_tokens ≡ false
  pub untouched : r.status ≡ open_request → r.granted_tokens ≡ []

mem-nil_keep :
    (test : String → Bool) (t : String) (xs : List String)
    → is_nil (keep test xs) ≡ true
    → mem t xs ≡ true
    → test t ≡ false
unfolding mem keep
mem-nil_keep test t [] h m = ground arith
mem-nil_keep test t (x ∷ xs) h m = ground (arith, mem-nil_keep test t xs, eq_iff x t)

granted-IsConsistent :
    (k : String) (r : ApprovalRequest) (wanted : List String) (approver reason : String) (now : ℕ)
    → IsConsistent k r
    → is_nil (keep (λ token. not (mem token r.required_tokens)) wanted) ≡ true
    → IsConsistent k (granted r wanted approver reason now)
unfolding granted
granted-IsConsistent k r wanted approver reason now c fits = record {
  own_id = c.own_id;
  in_scope = λ t m. ground (
    arith,
    c.in_scope t,
    m,
    mem-sorted_set t (r.granted_tokens ++ wanted),
    mem-append t r.granted_tokens wanted,
    mem-nil_keep (λ token. not (mem token r.required_tokens)) t wanted fits,
  );
  complete = λ s. ground arith;
  partial = λ s. ground arith;
  untouched = λ s. ground arith;
}

IsConsistent-IsKept : IsKept IsConsistent
unfolding denied_request
IsConsistent-IsKept = record {
  own_id = λ k r c. c.own_id;
  on_expiry = λ k r c e. record {
    own_id = c.own_id;
    in_scope = c.in_scope;
    complete = λ s. cc;
    partial = λ s. cc;
    untouched = λ s. cc;
  };
  on_grant = λ k r wanted approver reason now c live fits.
      granted-IsConsistent k r wanted approver reason now c fits;
  on_denial = λ k r approver reason now c live. record {
    own_id = c.own_id;
    in_scope = c.in_scope;
    complete = λ s. cc;
    partial = λ s. cc;
    untouched = λ s. cc;
  };
  on_cancel = λ k r reason c live. record {
    own_id = c.own_id;
    in_scope = c.in_scope;
    complete = λ s. cc;
    partial = λ s. cc;
    untouched = λ s. cc;
  };
}

new-IsConsistent : (c : Call) → Makes IsConsistent c
unfolding new_request mem
new-IsConsistent (creates d requested_by ttl reason metadata id now) = record {
  own_id = refl;
  in_scope = λ t m. ground arith;
  complete = λ s. cc;
  partial = λ s. cc;
  untouched = λ s. refl;
}
new-IsConsistent (approves id approver tokens reason now) = tt
new-IsConsistent (denies id approver reason now) = tt
new-IsConsistent (cancels id reason now) = tt
new-IsConsistent (gets id now) = tt
new-IsConsistent (lists now) = tt
new-IsConsistent (asks_context base id now) = tt

Makes-All :
    (P : String → ApprovalRequest → Type 0)
    → ((c : Call) → Makes P c)
    → (cs : List Call) → All (Makes P) cs
Makes-All P f [] = tt
Makes-All P f (c ∷ cs) = (f c, Makes-All P f cs)

-- After any calls on a broker whose requests are consistent, among them those of a new broker, every
-- stored request is consistent: it stands under its own id, its granted tokens are among the required
-- ones, an approved one has them all, a partially approved one lacks one, and an open one has none.
pub run-IsConsistent :
    (b : ApprovalBroker) (cs : List Call) → Holds IsConsistent b → Holds IsConsistent (run b cs)
run-IsConsistent b cs h =
    Holds-run IsConsistent IsConsistent-IsKept b cs (Makes-All IsConsistent new-IsConsistent cs) h
