-- ===== src/Worker/Cleared.antt =====
-- worker_runtime.py: what must hold before an action changes the world of the node.
use mathlib.Core.Path.{subst}
use Prim.Native.String.{◌++◌ as str_append}
use cyber_hive.Prelude.{
  if◌then◌else◌, Bool-cases, string_eq, nat_eq, if-holds, Result, ok, raise, Result-cases, ℕ,
  String, ◌≡◌, refl, ◌∙◌, ◌⊎◌, inl, inr, true, false, not, Option, none, some, arith,
}
use cyber_hive.Prelude.Dict.{get}
use cyber_hive.Plan.Metadata.{Fields}
use cyber_hive.Channel.Envelope.{
  controller_to_node, action, ack, direction_eq, purpose_eq, SignedChannelEnvelope, Crypto,
}
use cyber_hive.Channel.Guard.{ChannelVerification, is_accepted, key_eq, verify}
use cyber_hive.Agent.Node.{
  Python, action_eq, AgentActionRequest, ActionHandlerContext, ResultMetadata, is_good,
}
use cyber_hive.Agent.Handlers.{RegisteredActionHandler, ActionHandlerRegistry, dispatch}
use cyber_hive.Agent.Safe.{IsSafe, dispatch-Dispatched}
use cyber_hive.Worker.Payload.{WorkerRuntimeError, Job, read_job, ack_payload}
use cyber_hive.Worker.Processing.{
  send, context_for, request_for, run_handler, after_reserve, guarded, after_accept, after_verify,
  process_action_envelope,
}
use cyber_hive.Worker.Runtime.{
  handled, broken, WorkerRuntimePolicy, WorkerProcessOutcome, Draws, NodeWorkerRuntime,
  release_after, reserve_for, recorded,
}
use cyber_hive.Worker.Sent.{SameNode, send-SameNode, conclude-SameNode, refuse-SameNode}
use cyber_hive.Resource.{ResourceReservation, is_granted}
use cyber_hive.Resource.Guard.{LocalResourceGuard}

-- The guard has granted the action, or there is none and the policy does without.
abbrev pub IsGuarded :
    Python → WorkerRuntimePolicy → Option LocalResourceGuard → Job → String → ℕ → Type 0
IsGuarded py p none job id now = p.require_resource_guard ≡ false
IsGuarded py p (some g) job id now =
    (r : ResourceReservation) × ((reserve_for py g job id now).1 ≡ ok r) × (is_granted r ≡ true)

-- a handler that is safe in the mode of the job made this world of that one
abbrev pub Handled : {W : Type 0} → ActionHandlerRegistry W → Job → W → W → Type 0
Handled {W = W} g job before after =
    (h : RegisteredActionHandler W) × (r : AgentActionRequest) × (context : ActionHandlerContext)
    × (get job.action g.handlers ≡ some h)
    × IsSafe h job.is_dry_run
    × (r.action ≡ job.action)
    × (r.payload ≡ job.payload)
    × (r.is_dry_run ≡ job.is_dry_run)
    × (r.approval_tokens ≡ job.approval_tokens)
    × (after ≡ (h.handler before r context).0)

module _ {W : Type 0} (c : Crypto Fields) (py : Python) (render : ResultMetadata → Fields) where
  module _ (e : SignedChannelEnvelope Fields) (v : ChannelVerification)
      (a : SignedChannelEnvelope Fields) (job : Job) (draws : Draws) (now : ℕ) where
    run_handler-world :
        (w : NodeWorkerRuntime W) (reservation : Option ResourceReservation)
        → (run_handler c py render w e v a job reservation draws now).0.world
          ≡ (dispatch w.handlers w.world
              (request_for c py render w e job draws.request_id now)
              (context_for c py render w e job reservation)
              draws.answer_id
              now).1
    unfolding run_handler
    run_handler-world w reservation =
        let (handlers, world, result) =
          dispatch w.handlers w.world (request_for c py render w e job draws.request_id now)
            (context_for c py render w e job reservation) draws.answer_id now in
        let (guard, freed) = release_after w.resource_guard reservation result now in
        elim (Result-cases freed) [
          | inl (x, f) ↦ rw (f, run_handler) refl
          | inr (x, f) ↦
              rw (f, run_handler)
                (conclude-SameNode c py render
                  (record w { handlers = handlers; world = world; resource_guard = guard }) e v a
                  (if is_good result then handled else broken) result reservation draws
                  now).same_world
        ]

    run_handler-Handled :
        (w : NodeWorkerRuntime W) (reservation : Option ResourceReservation)
        → ((run_handler c py render w e v a job reservation draws now).0.world ≡ w.world)
          ⊎ Handled w.handlers job w.world
              (run_handler c py render w e v a job reservation draws now).0.world
    unfolding request_for
    run_handler-Handled w reservation =
        let r = request_for c py render w e job draws.request_id now in
        let context = context_for c py render w e job reservation in
        let changed = run_handler-world w reservation in
        elim (dispatch-Dispatched w.handlers w.world r context draws.answer_id now).1 [
          | inl (h, found, called) ↦
              inr (
                h,
                r,
                context,
                found,
                called.safe,
                refl,
                refl,
                refl,
                refl,
                changed ∙ called.world_of,
              )
          | inr (refused_it, unsafe) ↦ inl (changed ∙ refused_it.same_world)
        ]

    -- the same, with the guard that granted it
    abbrev Changed : NodeWorkerRuntime W → Option LocalResourceGuard → NodeWorkerRuntime W → Type 0
    Changed w guard w' =
        (w'.world ≡ w.world)
        ⊎ (IsGuarded py w.policy guard job draws.reservation_id now
            × Handled w.handlers job w.world w'.world)

    after_reserve-Changed :
        (w : NodeWorkerRuntime W) (g g' : LocalResourceGuard)
        (t : Result String ResourceReservation)
        → (reserve_for py g job draws.reservation_id now).1 ≡ t
        → Changed w
            (some g)
            (after_reserve c py render
              (record w { resource_guard = some g' })
              e
              v
              a
              job
              t
              draws
              now).0
    unfolding after_reserve
    after_reserve-Changed w g g' (raise why) is =
        inl
          (refuse-SameNode c py render e v a job draws now (record w { resource_guard = some g' })
            (str_append "resource guard error: " why) none).same_world
    after_reserve-Changed w g g' (ok r) is =
        let w' = record w { resource_guard = some g' } in
        if-holds {A = NodeWorkerRuntime W × Result WorkerRuntimeError WorkerProcessOutcome}
          (λ p. Changed w (some g) p.0) (not (is_granted r)) _ _
          (λ b.
            inl (refuse-SameNode c py render e v a job draws now w' r.reason (some r)).same_world)
          (λ b. elim (run_handler-Handled w' (some r)) [
            | inl same ↦ inl same
            | inr done ↦ inr ((r, is, ground arith), done)
          ])

    guarded-Changed :
        (w : NodeWorkerRuntime W) (guard : Option LocalResourceGuard)
        → Changed w guard (guarded c py render w e v a job guard draws now).0
    unfolding guarded
    guarded-Changed w (some g) =
        after_reserve-Changed w g (reserve_for py g job draws.reservation_id now).0
          (reserve_for py g job draws.reservation_id now).1 refl
    guarded-Changed w none =
        if-holds {A = NodeWorkerRuntime W × Result WorkerRuntimeError WorkerProcessOutcome}
          (λ p. Changed w none p.0) w.policy.require_resource_guard _ _
          (λ b.
            inl
              (refuse-SameNode c py render e v a job draws now w
                "resource guard required by worker policy" none).same_world)
          (λ b. elim (run_handler-Handled w none) [
            | inl same ↦ inl same
            | inr done ↦ inr (b, done)
          ])

  -- The world is as before; or the payload is a job which the guard granted, and which a handler that
  -- is safe in its mode carried out.
  abbrev pub Cleared :
      NodeWorkerRuntime W → SignedChannelEnvelope Fields → Draws → ℕ → NodeWorkerRuntime W → Type 0
  Cleared w e draws now w' =
      (w'.world ≡ w.world)
      ⊎ ((job : Job) × (read_job py e.payload ≡ ok job)
          × IsGuarded py w.policy w.resource_guard job draws.reservation_id now
          × Handled w.handlers job w.world w'.world)

  Cleared-Changed :
      (w w1 w2 : NodeWorkerRuntime W) (e : SignedChannelEnvelope Fields) (job : Job) (draws : Draws)
      (now : ℕ)
      → SameNode w w1
      → read_job py e.payload ≡ ok job
      → (w2.world ≡ w1.world)
        ⊎ (IsGuarded py w1.policy w1.resource_guard job draws.reservation_id now
            × Handled w1.handlers job w1.world w2.world)
      → Cleared w e draws now w2
  Cleared-Changed w w1 w2 e job draws now same j (inl kept) = inl (kept ∙ same.same_world)
  Cleared-Changed w w1 w2 e job draws now same j (inr (granted_it, done)) =
      let guard_before =
        subst (λ g. IsGuarded py w1.policy g job draws.reservation_id now) same.same_guard
          granted_it in
      let policy_before =
        subst (λ p. IsGuarded py p w.resource_guard job draws.reservation_id now) same.same_policy
          guard_before in
      let by_handlers = subst (λ h. Handled h job w1.world w2.world) same.same_handlers done in
      inr (
        job,
        j,
        policy_before,
        subst (λ b. Handled w.handlers job b w2.world) same.same_world by_handlers,
      )

  after_accept-Cleared :
      (w : NodeWorkerRuntime W) (e : SignedChannelEnvelope Fields) (v : ChannelVerification)
      (draws : Draws) (now : ℕ)
      → Cleared w e draws now (after_accept c py render w e v draws now).0
  unfolding after_accept
  after_accept-Cleared w e v draws now =
      let sent = send c py render w ack (ack_payload e) e.correlation_id draws.ack_id now in
      let same =
        send-SameNode c py render w ack (ack_payload e) e.correlation_id draws.ack_id now in
      elim (Result-cases sent.1) [
        | inl (x, f) ↦ rw (f, after_accept) (inl same.same_world)
        | inr (a, f) ↦ elim (Result-cases (read_job py e.payload)) [
          | inl (x, j) ↦ inl (rw (f, j, after_accept) same.same_world)
          | inr (job, j) ↦
              Cleared-Changed w sent.0 (after_accept c py render w e v draws now).0 e job draws now
                same j
                (rw (f, j, after_accept)
                  (guarded-Changed e v a job draws now sent.0 sent.0.resource_guard))
        ]
      ]

  -- `process_action_envelope` leaves the world of the node as it was, or the envelope was accepted by the
  -- secure channel as an action of the controller, its payload was read as a job, the resource guard granted
  -- the job (without a guard: the policy does without one), and the world is what a handler, registered for
  -- the action and safe in the job's mode, made of the former one for a request with the job's payload.
  pub process_action_envelope-Cleared :
      (w : NodeWorkerRuntime W) (e : SignedChannelEnvelope Fields) (draws : Draws)
      (current clock : ℕ)
      → let w' = (process_action_envelope c py render w e draws current clock).0 in
        (w'.world ≡ w.world)
        ⊎ ((v : ChannelVerification) × ((verify c w.channel e w.session_token
                (some controller_to_node)
                (some action)
                current
                clock).1
              ≡ ok v)
            × (is_accepted v ≡ true)
            × Cleared w e draws current w')
  unfolding process_action_envelope after_verify recorded
  process_action_envelope-Cleared w e draws current clock =
      let (channel, verified) =
        verify c w.channel e w.session_token (some controller_to_node) (some action) current
          clock in
      let w' = record w { channel = channel } in
      elim (Result-cases verified) [
        | inl (x, f) ↦ inl (rw (f, process_action_envelope) refl)
        | inr (v, f) ↦ elim (Bool-cases (is_accepted v)) [
          | inr b ↦ inl (rw (f, b, process_action_envelope) refl)
          | inl b ↦ inr (
            v,
            f,
            b,
            rw (f, b, process_action_envelope) (after_accept-Cleared w' e v draws current),
          )
        ]
      ]
