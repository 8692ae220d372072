-- ===== src/Agent/Permitted.antt =====
-- node_agent.py and action_handlers.py: what must hold before an action changes anything.
use mathlib.Core.Path.{subst}
use cyber_hive.Prelude.{
  Bool-cases, Option-cases, string_eq, nat_eq, if-holds, mem, ok, ok-injective, is_empty, ℕ, ◌≤◌,
  String, ◌≡◌, refl, ◌≢◌, ◌↔◌, ◌⊎◌, inl, inr, true, false, none, List, [], ◌∷◌, ◌++◌, arith, eq_iff,
}
use cyber_hive.Agent.Local.{
  NodeAgentPolicy, LocalNodeAgent, gate, live_gate, preflight, model_id_of, add_model, answer,
  prewarm, perform, carry_out, handle,
}
use cyber_hive.Agent.Node.{
  Python, AgentActionType, health_check, prewarm_model, data_move, cache_prime, noop, action_value,
  action_eq, AgentActionStatus, dry_run, succeeded, skipped, denied, failed, supports_action,
  AgentActionRequest, ResultMetadata, nothing, would_execute, AgentActionResult,
}

-- What an action needs to run live: the node's switch for it and its approval token.
abbrev pub IsApproved : NodeAgentPolicy → AgentActionType → List String → Type 0
IsApproved p prewarm_model approvals =
    (p.allow_prewarm ≡ true) × (mem p.required_prewarm_token approvals ≡ true)
IsApproved p data_move approvals =
    (p.allow_data_moves ≡ true) × (mem p.required_data_move_token approvals ≡ true)
IsApproved p cache_prime approvals =
    (p.allow_cache_prime ≡ true) × (mem p.required_cache_prime_token approvals ≡ true)
IsApproved p _ approvals = Unit

-- The agent may answer the request: it is the one that is meant, is up, allows the action, and the
-- payload is not too large; a live action is switched on and approved.
pub record IsAdmitted (py : Python) (a : LocalNodeAgent) (r : AgentActionRequest) : Type 0 where
  pub own_target : r.target_node ≡ a.descriptor.id
  pub is_enabled : a.descriptor.enabled ≡ true
  pub is_healthy : a.descriptor.healthy ≡ true
  pub is_allowed : mem (action_value r.action) a.descriptor.allowed_actions ≡ true
  pub fits : py.json_size r.payload ≤ a.policy.max_payload_bytes
  pub live :
      r.is_dry_run ≡ false
      → (a.policy.allow_live_actions ≡ true) × IsApproved a.policy r.action r.approval_tokens

live_gate-IsApproved :
    (p : NodeAgentPolicy) (a : AgentActionType) (approvals : List String)
    → live_gate p a approvals ≡ none ↔ IsApproved p a approvals
unfolding live_gate gate
live_gate-IsApproved p health_check approvals = ground arith
live_gate-IsApproved p prewarm_model approvals = ground arith
live_gate-IsApproved p data_move approvals = ground arith
live_gate-IsApproved p cache_prime approvals = ground arith
live_gate-IsApproved p noop approvals = ground arith

module _ (py : Python) (a : LocalNodeAgent) (r : AgentActionRequest) where
  admitted-of : preflight py a r ≡ none → IsAdmitted py a r
  unfolding preflight supports_action
  admitted-of h = record {
    own_target = ground (arith, eq_iff r.target_node a.descriptor.id);
    is_enabled = ground arith;
    is_healthy = ground arith;
    is_allowed = ground arith;
    fits = ground arith;
    live = λ d. ground (arith, live_gate-IsApproved a.policy r.action r.approval_tokens);
  }

  passes-of : IsAdmitted py a r → preflight py a r ≡ none
  unfolding preflight supports_action
  passes-of h = ground (
    arith,
    h.own_target,
    h.is_enabled,
    h.is_healthy,
    h.is_allowed,
    h.fits,
    h.live,
    eq_iff r.target_node a.descriptor.id,
    live_gate-IsApproved a.policy r.action r.approval_tokens,
  )

  -- `_preflight` lets a request pass exactly if it is for this node, which is enabled, healthy and allows
  -- the action, its payload is not too large, and, if it is live, live actions are switched on and its kind
  -- is switched on and approved by the token for it.
  pub preflight-IsAdmitted : preflight py a r ≡ none ↔ IsAdmitted py a r
  preflight-IsAdmitted = (admitted-of, passes-of)

-- What an answered request has done to the agent: it is counted, and the node and its policy stay. It is
-- denied exactly if it is not admitted. Only an admitted live prewarm of a named model adds one.
pub record IsHandled (py : Python) (a : LocalNodeAgent) (r : AgentActionRequest)
    (a' : LocalNodeAgent) (result : AgentActionResult) : Type 0 where
  pub counted : a'.handled_requests ≡ a.handled_requests ++ r.id ∷ []
  pub same_node : a'.descriptor ≡ a.descriptor
  pub same_policy : a'.policy ≡ a.policy
  pub answers : (result.request_id ≡ r.id) × (result.action ≡ r.action)
  pub denied_iff : result.status ≡ denied ↔ ¬ IsAdmitted py a r
  pub warms :
      (a'.warmed_models ≡ a.warmed_models)
      ⊎ (IsAdmitted py a r
          × (r.is_dry_run ≡ false)
          × (r.action ≡ prewarm_model)
          × (is_empty (model_id_of py r.payload) ≡ false)
          × (a'.warmed_models ≡ add_model (model_id_of py r.payload) a.warmed_models))

module _ (py : Python) (a : LocalNodeAgent) (r : AgentActionRequest) (id : String) (now : ℕ) where
  answered :
      (status : AgentActionStatus) (reason : String) (metadata : ResultMetadata)
      (events : List String)
      → (status ≡ denied ↔ ¬ IsAdmitted py a r)
      → IsHandled py a r
          (answer a r status reason metadata events id now).0
          (answer a r status reason metadata events id now).1
  unfolding answer
  answered status reason metadata events d = record {
    counted = refl;
    same_node = refl;
    same_policy = refl;
    answers = (refl, refl);
    denied_iff = d;
    warms = inl refl;
  }

  not_denied :
      (status : AgentActionStatus)
      → IsAdmitted py a r
      → status ≢ denied
      → (status ≡ denied ↔ ¬ IsAdmitted py a r)
  not_denied status admitted other = ((λ e. absurd (other e)), (λ n. absurd (n admitted)))

  prewarm-IsHandled :
      IsAdmitted py a r
      → r.is_dry_run ≡ false
      → r.action ≡ prewarm_model
      → IsHandled py a r
          (prewarm a r (model_id_of py r.payload) id now).0
          (prewarm a r (model_id_of py r.payload) id now).1
  unfolding prewarm answer
  prewarm-IsHandled admitted live is = elim (Bool-cases (is_empty (model_id_of py r.payload))) [
    | inl e ↦ rw e (
        answered failed "prewarm_model requires payload.model_id" nothing []
          (not_denied failed admitted (λ f. cc)))
    | inr e ↦ rw e (record {
      counted = refl;
      same_node = refl;
      same_policy = refl;
      answers = (refl, refl);
      denied_iff = not_denied succeeded admitted (λ f. cc);
      warms = inr (admitted, live, is, e, refl);
    })
  ]

  perform-IsHandled :
      IsAdmitted py a r
      → r.is_dry_run ≡ false
      → (action : AgentActionType) → r.action ≡ action
      → IsHandled py a r (perform py a r action id now).0 (perform py a r action id now).1
  unfolding perform
  perform-IsHandled admitted live health_check is =
      answered _ _ _ _ (not_denied succeeded admitted (λ f. cc))
  perform-IsHandled admitted live noop is = answered _ _ _ _ (not_denied skipped admitted (λ f. cc))
  perform-IsHandled admitted live prewarm_model is = prewarm-IsHandled admitted live is
  perform-IsHandled admitted live data_move is =
      answered _ _ _ _ (not_denied skipped admitted (λ f. cc))
  perform-IsHandled admitted live cache_prime is =
      answered _ _ _ _ (not_denied skipped admitted (λ f. cc))

  carry_out-IsHandled :
      IsHandled py a r
        (carry_out py a r id now (preflight py a r)).0
        (carry_out py a r id now (preflight py a r)).1
  unfolding carry_out
  carry_out-IsHandled = elim (Option-cases (preflight py a r)) [
    | inr (why, e) ↦
        rw (e, carry_out)
          (answered denied why nothing []
            ((λ d admitted. cc (e, passes-of py a r admitted)), (λ n. refl)))
    | inl e ↦
        let admitted = admitted-of py a r e in
        rw (e, carry_out)
          (if-holds {A = LocalNodeAgent × AgentActionResult} (λ p. IsHandled py a r p.0 p.1)
            r.is_dry_run _ _
            (λ dry.
              answered dry_run "dry-run accepted; no node-local side effects executed"
                (would_execute (action_value r.action)) [] (not_denied dry_run admitted (λ f. cc)))
            (λ live. perform-IsHandled admitted live r.action refl))
  ]

  -- If `handle` answers, the request is counted and the node and its policy stay. The answer is a denial
  -- exactly if the request is not admitted, and a model is added to the warmed ones only by an admitted live
  -- prewarm that names it.
  pub handle-IsHandled :
      (result : AgentActionResult)
      → (handle py a r id now).1 ≡ ok result
      → IsHandled py a r (handle py a r id now).0 result
  unfolding handle
  handle-IsHandled result h = elim (Bool-cases (is_empty r.id)) [
    | inl e ↦ cc (rw (e, handle) at h)
    | inr e ↦ elim (Bool-cases (is_empty r.target_node)) [
      | inl e' ↦ cc (rw (e, e', handle) at h)
      | inr e' ↦
          let same : (carry_out py a r id now (preflight py a r)).1 ≡ result =
            ok-injective (ok (carry_out py a r id now (preflight py a r)).1) _ _ refl
              (rw (e, e', handle) at h) in
          rw (e, e', handle) (subst (IsHandled py a r _) same carry_out-IsHandled)
    ]
  ]
