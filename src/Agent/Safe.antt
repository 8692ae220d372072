-- ===== src/Agent/Safe.antt =====
-- action_handlers.py: a handler is called only if it is registered and safe in the mode of the request.
use mathlib.Core.Path.{subst}
use mathlib.Core.Option.{some-injective}
use cyber_hive.Prelude.{
  Option-cases, string_eq, nat_eq, if-holds, ok, raise, is_ok, Result-cases, ℕ, String, ◌≡◌, refl,
  sym, ◌∙◌, ◌⊎◌, inl, inr, Bool, true, false, ◌&&◌, not, none, some, [], ◌∷◌, ◌++◌, arith,
}
use cyber_hive.Prelude.Dict.{get}
use cyber_hive.Agent.Node.{
  action_eq, denied, failed, AgentActionRequest, ActionHandlerContext, AgentActionResult,
}
use cyber_hive.Agent.Handlers.{
  no_handler, message, RegisteredActionHandler, ActionHandlerRegistry, synthetic, log_entry,
  require, logged, call_handler, after_require, dispatch,
}

-- safe in the mode of a request
abbrev pub IsSafe : {W : Type 0} → RegisteredActionHandler W → Bool → Type 0
IsSafe h true = h.dry_run_safe ≡ true
IsSafe h false = h.live_safe ≡ true

-- One entry is added, for the request, with the status of the answer; the handlers stay.
pub record IsLogged {W : Type 0} (g : ActionHandlerRegistry W) (r : AgentActionRequest)
    (context : ActionHandlerContext) (reply : ActionHandlerRegistry W × W × AgentActionResult)
    : Type 0 where
  pub same_handlers : reply.0.handlers ≡ g.handlers
  pub registered : Bool
  pub logs : reply.0.dispatch_log ≡ g.dispatch_log ++ log_entry r context reply.2 registered ∷ []

-- The request was refused: the world is as before, and the answer is a denial of this request.
pub record IsRefused {W : Type 0} (w : W) (r : AgentActionRequest)
    (reply : ActionHandlerRegistry W × W × AgentActionResult) : Type 0 where
  pub same_world : reply.1 ≡ w
  pub refused : reply.2.status ≡ denied
  pub of_request : reply.2.request_id ≡ r.id

-- The handler was called: the world is as it left it, and the answer is its own, or a failure of this
-- request where it raised.
pub record IsCalled {W : Type 0} (h : RegisteredActionHandler W) (w : W) (r : AgentActionRequest)
    (context : ActionHandlerContext) (reply : ActionHandlerRegistry W × W × AgentActionResult)
    : Type 0 where
  pub world_of : reply.1 ≡ (h.handler w r context).0
  pub safe : IsSafe h r.is_dry_run
  pub answer_of :
      ((h.handler w r context).1 ≡ ok reply.2)
      ⊎ ((is_ok (h.handler w r context).1 ≡ false)
          × (reply.2.status ≡ failed)
          × (reply.2.request_id ≡ r.id))

module _ {W : Type 0} (g : ActionHandlerRegistry W) (w : W) (r : AgentActionRequest)
    (context : ActionHandlerContext) (id : String) (now : ℕ) where
  -- what `dispatch` has done when it answers
  abbrev pub Dispatched : ActionHandlerRegistry W × W × AgentActionResult → Type 0
  Dispatched reply =
      IsLogged g r context reply
      × (((h : RegisteredActionHandler W) × (get r.action g.handlers ≡ some h)
            × IsCalled h w r context reply)
          ⊎ (IsRefused w r reply
              × ((h : RegisteredActionHandler W)
                  → get r.action g.handlers ≡ some h
                  → ¬ IsSafe h r.is_dry_run)))

  call-Dispatched :
      (h : RegisteredActionHandler W)
      → get r.action g.handlers ≡ some h
      → IsSafe h r.is_dry_run
      → Dispatched (call_handler g (h.handler w r context) r context id now)
  unfolding call_handler logged synthetic
  call-Dispatched h e safe = elim (Result-cases (h.handler w r context).1) [
    | inl (x, f) ↦
        rw (f, call_handler)
          (
            record { same_handlers = refl; registered = true; logs = refl },
            inl (
              h,
              e,
              record { world_of = refl; safe = safe; answer_of = inr (rw f refl, refl, refl) },
            ),
          )
    | inr (x, f) ↦
        rw (f, call_handler)
          (
            record { same_handlers = refl; registered = true; logs = refl },
            inl (h, e, record { world_of = refl; safe = safe; answer_of = inl f }),
          )
  ]

  refused-Dispatched :
      (why : String) (known : Bool)
      → ((h : RegisteredActionHandler W)
          → get r.action g.handlers ≡ some h
          → ¬ IsSafe h r.is_dry_run)
      → Dispatched (logged g w r context (synthetic r denied why context id now) known)
  unfolding logged synthetic
  refused-Dispatched why known unsafe = (
    record { same_handlers = refl; registered = known; logs = refl },
    inr (record { same_world = refl; refused = refl; of_request = refl }, unsafe),
  )

  unsafe_dry :
      (h : RegisteredActionHandler W)
      → get r.action g.handlers ≡ some h
      → (r.is_dry_run && not h.dry_run_safe) ≡ true
      → (k : RegisteredActionHandler W) → get r.action g.handlers ≡ some k
      → ¬ IsSafe k r.is_dry_run
  unsafe_dry h e b k f safe =
      ground (arith, b, subst (λ x. IsSafe x r.is_dry_run) (some-injective k h (sym f ∙ e)) safe)

  unsafe_live :
      (h : RegisteredActionHandler W)
      → get r.action g.handlers ≡ some h
      → (not r.is_dry_run && not h.live_safe) ≡ true
      → (k : RegisteredActionHandler W) → get r.action g.handlers ≡ some k
      → ¬ IsSafe k r.is_dry_run
  unsafe_live h e b k f safe =
      ground (arith, b, subst (λ x. IsSafe x r.is_dry_run) (some-injective k h (sym f ∙ e)) safe)

  mode-IsSafe :
      (h : RegisteredActionHandler W)
      → (r.is_dry_run && not h.dry_run_safe) ≡ false
      → (not r.is_dry_run && not h.live_safe) ≡ false
      → IsSafe h r.is_dry_run
  mode-IsSafe h b c = ground arith

  found-Dispatched :
      (h : RegisteredActionHandler W)
      → get r.action g.handlers ≡ some h
      → Dispatched (after_require g w r context id now (ok h))
  unfolding after_require
  found-Dispatched h e =
      if-holds Dispatched (r.is_dry_run && not h.dry_run_safe) _ _
        (λ b. refused-Dispatched "handler is not dry-run safe" true (unsafe_dry h e b))
        (λ b.
          if-holds Dispatched (not r.is_dry_run && not h.live_safe) _ _
            (λ c. refused-Dispatched "handler is not live-safe" true (unsafe_live h e c))
            (λ c. call-Dispatched h e (mode-IsSafe h b c)))

  missing-Dispatched :
      get r.action g.handlers ≡ none
      → Dispatched (after_require g w r context id now (raise (no_handler r.action)))
  unfolding after_require
  missing-Dispatched e = refused-Dispatched (message (no_handler r.action)) false (λ h f. cc (e, f))

  -- Whatever the handlers do, `dispatch` answers and logs its answer once. Either there is a handler for
  -- the action that is safe in the mode of the request, and it was called: the world is as it left it and
  -- the answer is its own, or a failure where it raised. Or there is no such handler, the request is
  -- denied and the world is as before.
  pub dispatch-Dispatched : Dispatched (dispatch g w r context id now)
  unfolding dispatch require
  dispatch-Dispatched = elim (Option-cases (get r.action g.handlers)) [
    | inl e ↦
        let none_found : require g r.action ≡ raise (no_handler r.action) = rw (e, require) refl in
        subst (λ q. Dispatched (after_require g w r context id now q)) (sym none_found)
          (missing-Dispatched e)
    | inr (h, e) ↦
        let one_found : require g r.action ≡ ok h = rw (e, require) refl in
        subst (λ q. Dispatched (after_require g w r context id now q)) (sym one_found)
          (found-Dispatched h e)
  ]
