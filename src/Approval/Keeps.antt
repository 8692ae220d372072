-- ===== src/Approval/Keeps.antt =====
-- approval_workflow.py: a statement about every stored request that each way to change one keeps,
-- every call of the broker keeps, whether it returns or raises.
use mathlib.Core.Path.{subst}
use cyber_hive.Prelude.{
  if◌then◌else◌, Bool-cases, Option-cases, nat_eq, string_eq, is_nil, keep, All, mem, ok, raise,
  is_empty, ℕ, String, ◌≡◌, sym, inl, inr, true, ◌&&◌, not, Option, List, [], ◌∷◌, arith,
}
use cyber_hive.Prelude.Dict.{Dict, get, Each, Each-get, Each-put}
use cyber_hive.Approval.{
  expired, cancelled, is_open, is_expirable, ApprovalRequest, is_expired, ApprovalBroker, Reply,
  store, new_request, create_request, refresh_expiry, get_request, require_open, ◌>>>◌, get_mutable,
  granted, approve_with, wanted_tokens, approve, denied_request, deny_request, cancel, list_from,
  list_open, context_with_approvals, Call, creates, approves, denies, cancels, gets, lists,
  asks_context, step, run,
}
use cyber_hive.Plan.Metadata.{Fields}
use cyber_hive.Policy.{PolicyContext, PolicyDecision}

pub record IsKept (P : String → ApprovalRequest → Type 0) : Type 0 where
  pub own_id : (k : String) (r : ApprovalRequest) → P k r → r.id ≡ k
  pub on_expiry :
      (k : String) (r : ApprovalRequest)
      → P k r
      → is_expirable r.status ≡ true
      → P k (record r { status = expired })
  pub on_grant :
      (k : String) (r : ApprovalRequest) (wanted : List String) (approver reason : String) (now : ℕ)
      → P k r
      → is_open r.status ≡ true
      → is_nil (keep (λ token. not (mem token r.required_tokens)) wanted) ≡ true
      → P k (granted r wanted approver reason now)
  pub on_denial :
      (k : String) (r : ApprovalRequest) (approver reason : String) (now : ℕ)
      → P k r
      → is_open r.status ≡ true
      → P k (denied_request r approver reason now)
  pub on_cancel :
      (k : String) (r : ApprovalRequest) (reason : String)
      → P k r
      → is_open r.status ≡ true
      → P k (record r { status = cancelled; reason = reason })

-- What the broker holds satisfies `P`.
abbrev pub Holds : (String → ApprovalRequest → Type 0) → ApprovalBroker → Type 0
Holds P b = Each P b.requests

-- So does a request that is returned.
abbrev pub Returns : (String → ApprovalRequest → Type 0) → String → Reply → Type 0
Returns P id (b, ok r) = Holds P b × P id r
Returns P id (b, raise e) = Holds P b

context-get_request :
    (b : ApprovalBroker) (base : PolicyContext) (id : String) (now : ℕ)
    → (context_with_approvals b base id now).0 ≡ (get_request b id now).0
unfolding context_with_approvals
context-get_request b base id now = ground arith

module _ (P : String → ApprovalRequest → Type 0) (p : IsKept P) where
  Holds-store :
      (b : ApprovalBroker) (id event : String) (r : ApprovalRequest)
      → Holds P b
      → P id r
      → Holds P (store b id event r)
  unfolding store
  Holds-store b id event r h q = Each-put P id r b.requests h q

  Holds-refresh_expiry :
      (b : ApprovalBroker) (k : String) (r : ApprovalRequest) (now : ℕ)
      → Holds P b
      → P k r
      → Holds P (refresh_expiry b r now).0 × P k (refresh_expiry b r now).1
  unfolding refresh_expiry
  Holds-refresh_expiry b k r now h q =
      elim (Bool-cases (is_expirable r.status && is_expired r now)) [
        | inr stays ↦ rw (stays, refresh_expiry) (h, q)
        | inl over ↦
            let gone = p.on_expiry k r q (ground arith) in
            rw (over, refresh_expiry)
              (
                subst (λ i. Holds P (store b i "approval.expired" (record r { status = expired })))
                    (sym (p.own_id k r q)) (Holds-store b k "approval.expired" _ h gone),
                gone,
              )
      ]

  pub Returns-get_request :
      (b : ApprovalBroker) (id : String) (now : ℕ) → Holds P b → Returns P id (get_request b id now)
  unfolding get_request
  Returns-get_request b id now h = elim (Option-cases (get id b.requests)) [
    | inl e ↦ rw (e, get_request) h
    | inr (r, e) ↦
        rw (e, get_request) (Holds-refresh_expiry b id r now h (Each-get P id r b.requests h e))
  ]

  -- what an operation does with a request that may change
  pub Returns-open :
      (id : String) (m : Reply) (f : ApprovalBroker → ApprovalRequest → Reply)
      → Returns P id m
      → ((b : ApprovalBroker) (r : ApprovalRequest)
          → Holds P b
          → P id r
          → is_open r.status ≡ true
          → Returns P id (f b r))
      → Returns P id (m >>> require_open >>> f)
  Returns-open id (b, raise e) f h k = h
  Returns-open id (b, ok r) f h k = elim (Bool-cases (is_open r.status)) [
    | inl live ↦ rw live (k b r h.0 h.1 live)
    | inr closed ↦ rw closed h.0
  ]

  Returns-approve_with :
      (id : String) (wanted : List String) (approver reason : String) (now : ℕ) (b : ApprovalBroker)
      (r : ApprovalRequest)
      → Holds P b
      → P id r
      → is_open r.status ≡ true
      → Returns P id (approve_with id wanted approver reason now b r)
  unfolding approve_with
  Returns-approve_with id wanted approver reason now b r h q live =
      elim (Bool-cases (is_nil wanted)) [
        | inl none_wanted ↦ rw none_wanted h
        | inr some_wanted ↦
            elim (Bool-cases (is_nil (keep (λ token. not (mem token r.required_tokens)) wanted))) [
              | inr bad ↦ rw (some_wanted, bad) h
              | inl fits ↦
                  let q' = p.on_grant id r wanted approver reason now q live fits in
                  rw (some_wanted, fits) (Holds-store b id "approval.approved" _ h q', q')
            ]
      ]

  pub Returns-approve :
      (b : ApprovalBroker) (id approver : String) (tokens : Option (List String)) (reason : String)
      (now : ℕ)
      → Holds P b
      → Returns P id (approve b id approver tokens reason now)
  unfolding approve get_mutable
  Returns-approve b id approver tokens reason now h =
      Returns-open id (get_request b id now) _ (Returns-get_request b id now h) (λ b' r h' q live.
        Returns-approve_with id (wanted_tokens tokens r) approver reason now b' r h' q live)

  pub Returns-deny_request :
      (b : ApprovalBroker) (id approver reason : String) (now : ℕ)
      → Holds P b
      → Returns P id (deny_request b id approver reason now)
  unfolding deny_request get_mutable
  Returns-deny_request b id approver reason now h =
      Returns-open id (get_request b id now) _ (Returns-get_request b id now h) (λ b' r h' q live.
        let q' = p.on_denial id r approver reason now q live in
        (Holds-store b' id "approval.denied" _ h' q', q'))

  pub Returns-cancel :
      (b : ApprovalBroker) (id reason : String) (now : ℕ)
      → Holds P b
      → Returns P id (cancel b id reason now)
  unfolding cancel get_mutable
  Returns-cancel b id reason now h =
      Returns-open id (get_request b id now) _ (Returns-get_request b id now h) (λ b' r h' q live.
        let q' = p.on_cancel id r (if is_empty reason then r.reason else reason) q live in
        (Holds-store b' id "approval.cancelled" _ h' q', q'))

  Holds-list_from :
      (d : Dict String ApprovalRequest) (b : ApprovalBroker) (now : ℕ)
      → Each P d
      → Holds P b
      → Holds P (list_from d b now).0
  unfolding list_from
  Holds-list_from [] b now e h = h
  Holds-list_from ((k, r) ∷ rest) b now e h =
      Holds-list_from rest (refresh_expiry b r now).0 now e.1
        (Holds-refresh_expiry b k r now h e.0).0

  Holds-reply : (id : String) (m : Reply) → Returns P id m → Holds P m.0
  Holds-reply id (b, ok r) h = h.0
  Holds-reply id (b, raise e) h = h

  Holds-context_with_approvals :
      (b : ApprovalBroker) (base : PolicyContext) (id : String) (now : ℕ)
      → Holds P b
      → Holds P (context_with_approvals b base id now).0
  Holds-context_with_approvals b base id now h =
      subst (Holds P) (sym (context-get_request b base id now))
        (Holds-reply id (get_request b id now) (Returns-get_request b id now h))

-- The request that the call makes satisfies `P`.
abbrev pub Makes : (String → ApprovalRequest → Type 0) → Call → Type 0
Makes P (creates d requested_by ttl reason metadata id now) =
    P id (new_request d requested_by ttl reason metadata id now)
Makes P _ = Unit

module _ (P : String → ApprovalRequest → Type 0) (p : IsKept P) where
  Holds-create_request :
      (b : ApprovalBroker) (d : PolicyDecision) (requested_by : String) (ttl : ℕ) (reason : String)
      (metadata : Fields) (id : String) (now : ℕ)
      → P id (new_request d requested_by ttl reason metadata id now)
      → Holds P b
      → Holds P (create_request b d requested_by ttl reason metadata id now).0
  unfolding create_request
  Holds-create_request b d requested_by ttl reason metadata id now made h = ground (
    arith,
    Each-put P id (new_request d requested_by ttl reason metadata id now) b.requests h made,
  )

  Holds-step : (b : ApprovalBroker) (c : Call) → Makes P c → Holds P b → Holds P (step b c)
  unfolding step list_open
  Holds-step b (creates d requested_by ttl reason metadata id now) made h =
      Holds-create_request b d requested_by ttl reason metadata id now made h
  Holds-step b (approves id approver tokens reason now) made h =
      Holds-reply P p id (approve b id approver tokens reason now)
        (Returns-approve P p b id approver tokens reason now h)
  Holds-step b (denies id approver reason now) made h =
      Holds-reply P p id (deny_request b id approver reason now)
        (Returns-deny_request P p b id approver reason now h)
  Holds-step b (cancels id reason now) made h =
      Holds-reply P p id (cancel b id reason now) (Returns-cancel P p b id reason now h)
  Holds-step b (gets id now) made h =
      Holds-reply P p id (get_request b id now) (Returns-get_request P p b id now h)
  Holds-step b (lists now) made h = Holds-list_from P p b.requests b now h h
  Holds-step b (asks_context base id now) made h = Holds-context_with_approvals P p b base id now h

  pub Holds-run :
      (b : ApprovalBroker) (cs : List Call) → All (Makes P) cs → Holds P b → Holds P (run b cs)
  unfolding run
  Holds-run b [] made h = h
  Holds-run b (c ∷ cs) made h = Holds-run (step b c) cs made.1 (Holds-step b c made.0 h)
