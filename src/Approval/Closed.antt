-- ===== src/Approval/Closed.antt =====
-- approval_workflow.py: a request that was denied or cancelled or that expired stays as it is, and no
-- later call approves it.
use mathlib.Core.Path.{ap}
use cyber_hive.Prelude.{
  Bool-cases, ◌==◌, nat_eq, string_eq, All, ok, raise, is_ok, ℕ, String, ◌≡◌, refl, inl, inr, true,
  false, Option, some, List, [], ◌∷◌, arith,
}
use cyber_hive.Prelude.Dict.{get, Each-both, Distinct, Each-only}
use cyber_hive.Approval.{
  ApprovalStatus, open_request, partially_approved, approved, denied, expired, cancelled, is_open,
  is_expirable, ApprovalRequest, ApprovalBroker, Reply, new_request, get_request, require_open,
  ◌>>>◌, get_mutable, granted, approve, denied_request, deny_request, cancel, Call, creates,
  approves, denies, cancels, gets, lists, asks_context, run,
}
use cyber_hive.Approval.Keeps.{IsKept, Holds, Returns, Returns-get_request, Makes, Holds-run}

-- What stands under `id` is `closed`.
abbrev Frozen : String → ApprovalRequest → String → ApprovalRequest → Type 0
Frozen id closed k r = (r.id ≡ k) × (k ≡ id → r ≡ closed)

-- The call makes no request under `id`.
abbrev pub Elsewhere : String → Call → Type 0
Elsewhere id (creates d requested_by ttl reason metadata i now) = (i == id) ≡ false
Elsewhere id _ = Unit

module _ (id : String) (closed : ApprovalRequest) (final : is_expirable closed.status ≡ false) where
  expirable_of_open : (s : ApprovalStatus) → is_open s ≡ true → is_expirable s ≡ true
  expirable_of_open open_request h = refl
  expirable_of_open partially_approved h = refl
  expirable_of_open approved h = refl
  expirable_of_open denied h = ground arith
  expirable_of_open expired h = ground arith
  expirable_of_open cancelled h = ground arith

  other_key :
      (k : String) (r r' : ApprovalRequest)
      → Frozen id closed k r
      → is_expirable r.status ≡ true
      → k ≡ id
      → r' ≡ closed
  other_key k r r' h live e = cc (live, final, ap (λ x. is_expirable x.status) (h.1 e))

  Frozen-IsKept : IsKept (Frozen id closed)
  unfolding granted denied_request
  Frozen-IsKept = record {
    own_id = λ k r h. h.0;
    on_expiry = λ k r h live. (h.0, other_key k r _ h live);
    on_grant = λ k r wanted approver reason now h live fits.
        (h.0, other_key k r _ h (expirable_of_open r.status live));
    on_denial = λ k r approver reason now h live.
        (h.0, other_key k r _ h (expirable_of_open r.status live));
    on_cancel = λ k r reason h live. (h.0, other_key k r _ h (expirable_of_open r.status live));
  }

  Frozen-made : (c : Call) → Elsewhere id c → Makes (Frozen id closed) c
  unfolding new_request
  Frozen-made (creates d requested_by ttl reason metadata i now) h =
      (refl, λ e. cc (h, (string_eq.beq_iff i id).1 e))
  Frozen-made (approves i approver tokens reason now) h = tt
  Frozen-made (denies i approver reason now) h = tt
  Frozen-made (cancels i reason now) h = tt
  Frozen-made (gets i now) h = tt
  Frozen-made (lists now) h = tt
  Frozen-made (asks_context base i now) h = tt

  All-made : (cs : List Call) → All (Elsewhere id) cs → All (Makes (Frozen id closed)) cs
  All-made [] h = tt
  All-made (c ∷ cs) h = (Frozen-made c h.0, All-made cs h.1)

  refused-open :
      (m : Reply) → Returns (Frozen id closed) id m → is_ok (m >>> require_open).1 ≡ false
  refused-open (b, raise e) h = refl
  refused-open (b, ok r) h = elim (Bool-cases (is_open r.status)) [
    | inl live ↦
        cc (expirable_of_open r.status live, final, ap (λ x. is_expirable x.status) (h.1.1 refl))
    | inr shut ↦ rw shut refl
  ]

  refused-then :
      (m : Reply) (f : ApprovalBroker → ApprovalRequest → Reply)
      → is_ok m.1 ≡ false
      → is_ok (m >>> f).1 ≡ false
  refused-then (b, raise e) f h = refl
  refused-then (b, ok r) f h = ground arith

  refused-mutable :
      (b : ApprovalBroker) (now : ℕ)
      → Holds (Frozen id closed) b
      → is_ok (get_mutable b id now).1 ≡ false
  unfolding get_mutable
  refused-mutable b now h =
      refused-open (get_request b id now)
        (Returns-get_request (Frozen id closed) Frozen-IsKept b id now h)

-- A broker with distinct ids holds under `id` a request that was denied or cancelled or that expired.
-- After any calls that create no request under `id`, every call that would approve, deny or cancel it
-- is refused, at any time and with any tokens.
pub run-closed :
    (b : ApprovalBroker) (id : String) (closed : ApprovalRequest) (cs : List Call)
    → Distinct b.requests
    → Holds (λ k r. r.id ≡ k) b
    → get id b.requests ≡ some closed
    → is_expirable closed.status ≡ false
    → All (Elsewhere id) cs
    → (approver reason : String) (tokens : Option (List String)) (now : ℕ)
    → (is_ok (approve (run b cs) id approver tokens reason now).1 ≡ false)
      × (is_ok (deny_request (run b cs) id approver reason now).1 ≡ false)
      × (is_ok (cancel (run b cs) id reason now).1 ≡ false)
unfolding approve deny_request cancel
run-closed b id closed cs distinct own found final elsewhere approver reason tokens now =
    let held =
      Each-both (λ k r. r.id ≡ k) (λ k r. k ≡ id → r ≡ closed) b.requests own
        (Each-only id closed b.requests distinct found) in
    let after =
      Holds-run (Frozen id closed) (Frozen-IsKept id closed final) b cs
        (All-made id closed final cs elsewhere) held in
    let shut = refused-mutable id closed final (run b cs) now after in
    (
      refused-then id closed final (get_mutable (run b cs) id now) _ shut,
      refused-then id closed final (get_mutable (run b cs) id now) _ shut,
      refused-then id closed final (get_mutable (run b cs) id now) _ shut,
    )
