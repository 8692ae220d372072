-- ===== src/Worker/Restored.antt =====
-- worker_runtime.py: after each action the guard has the reservations that it had before.
use mathlib.Core.Path.{subst}
use Prim.Native.String.{◌++◌ as str_append}
use cyber_hive.Prelude.{
  if◌then◌else◌, Bool-cases, string_eq, nat_eq, if-holds, Result, ok, raise, is_ok, Result-cases, ℕ,
  String, ◌≡◌, refl, sym, ap, inl, inr, Bool, false, Option, none, some, arith,
}
use cyber_hive.Channel.Envelope.{
  controller_to_node, action, ack, direction_eq, purpose_eq, SignedChannelEnvelope, Crypto,
}
use cyber_hive.Channel.Guard.{ChannelVerification, is_accepted, key_eq, verify}
use cyber_hive.Agent.Node.{
  Python, action_value, action_eq, status_value, ResultMetadata, AgentActionResult, is_good,
}
use cyber_hive.Resource.{ResourceRequest, ResourceReservation, is_granted, is_active}
use cyber_hive.Resource.Guard.{LocalResourceGuard, refusal, grant, decide_reservation, reserve}
use cyber_hive.Prelude.Dict.{get}
use cyber_hive.Resource.Replies.{release-reserve}
use cyber_hive.Worker.Sent.{send-SameNode, conclude-SameNode, refuse-SameNode}
use cyber_hive.Worker.Processing.{
  send, context_for, request_for, run_handler, after_reserve, guarded, after_accept, after_verify,
  process_action_envelope,
}
use cyber_hive.Worker.Runtime.{
  handled, broken, WorkerProcessOutcome, Draws, NodeWorkerRuntime, release_after, reserve_for,
  recorded,
}
use cyber_hive.Plan.Metadata.{Fields}
use cyber_hive.Worker.Payload.{
  WorkerRuntimeError, Job, read_job, resource_request_from_payload, ack_payload,
}
use cyber_hive.Agent.Handlers.{dispatch}

-- what `reserve` answers has the identifier that was drawn, and is held only if it is active
reserved-held :
    (g : LocalResourceGuard) (kind : String) (q : Option ResourceRequest) (dry : Bool) (id : String)
    (now : ℕ) (r : ResourceReservation)
    → (reserve g kind q dry id now).1 ≡ ok r
    → (r.id ≡ id) × (is_active r ≡ false → (reserve g kind q dry id now).0.active ≡ g.active)
unfolding reserve decide_reservation refusal grant is_active
reserved-held g kind q dry id now r e = (ground arith, λ idle. ground arith)

reserve-raised :
    (g : LocalResourceGuard) (kind : String) (q : Option ResourceRequest) (dry : Bool) (id : String)
    (now : ℕ)
    → is_ok (reserve g kind q dry id now).1 ≡ false
    → (reserve g kind q dry id now).0.active ≡ g.active
unfolding reserve decide_reservation
reserve-raised g kind q dry id now e = ground arith

-- the guards have the same active reservations
abbrev pub SameActive : Option LocalResourceGuard → Option LocalResourceGuard → Type 0
SameActive (some g) (some g') = g'.active ≡ g.active
SameActive none none = Unit
SameActive _ _ = ⊥

freed-same :
    (g : LocalResourceGuard) (kind : String) (q : Option ResourceRequest) (dry : Bool) (id : String)
    (now : ℕ) (r : ResourceReservation) (result : AgentActionResult)
    → get id g.active ≡ none
    → (reserve g kind q dry id now).1 ≡ ok r
    → SameActive
        (some g)
        (release_after (some (reserve g kind q dry id now).0) (some r) result now).0
unfolding release_after
freed-same g kind q dry id now r result fresh e =
    let (own, idle) = reserved-held g kind q dry id now r e in
    let why = str_append "action finished: " (status_value result.status) in
    elim (Bool-cases (is_active r)) [
      | inl b ↦ rw (b, own) (release-reserve g kind q dry id why now now fresh).0
      | inr b ↦ rw b (idle b)
    ]

-- the identifier is not that of an active reservation
abbrev pub IsFresh : String → Option LocalResourceGuard → Type 0
IsFresh id none = Unit
IsFresh id (some g) = get id g.active ≡ none

SameActive-refl : (g : Option LocalResourceGuard) → SameActive g g
SameActive-refl none = tt
SameActive-refl (some g) = refl

-- What the guard `g'` after `reserve` owes to the guard `g` before: nothing is held where the reservation
-- was refused, and releasing what is held leaves nothing more.
abbrev Owes :
    LocalResourceGuard → LocalResourceGuard → ℕ → Result String ResourceReservation → Type 0
Owes g g' now (raise why) = g'.active ≡ g.active
Owes g g' now (ok r) =
    (is_granted r ≡ false → g'.active ≡ g.active)
    × ((result : AgentActionResult)
        → SameActive (some g) (release_after (some g') (some r) result now).0)

idle_of_refused : (r : ResourceReservation) → is_granted r ≡ false → is_active r ≡ false
unfolding is_granted is_active
idle_of_refused r h = ground arith

reserve_for-Owes :
    (py : Python) (g : LocalResourceGuard) (job : Job) (id : String) (now : ℕ)
    → get id g.active ≡ none
    → Owes g (reserve_for py g job id now).0 now (reserve_for py g job id now).1
unfolding reserve_for
reserve_for-Owes py g job id now fresh =
    elim (Result-cases (resource_request_from_payload py job.payload)) [
      | inl (x, f) ↦ rw (f, reserve_for) refl
      | inr (q, f) ↦
          let kind = action_value job.action in
          elim (Result-cases (reserve g kind (some q) job.is_dry_run id now).1) [
            | inl (x, e) ↦
                rw (f, e, reserve_for)
                  (reserve-raised g kind (some q) job.is_dry_run id now (ap (λ m. is_ok m) e))
            | inr (r, e) ↦
                let (own, idle) = reserved-held g kind (some q) job.is_dry_run id now r e in
                rw (f, e, reserve_for)
                  (
                    (λ h. idle (idle_of_refused r h)),
                    (λ result. freed-same g kind (some q) job.is_dry_run id now r result fresh e),
                  )
          ]
    ]

module _ {W : Type 0} (c : Crypto Fields) (py : Python) (render : ResultMetadata → Fields) where
  module _ (e : SignedChannelEnvelope Fields) (v : ChannelVerification)
      (a : SignedChannelEnvelope Fields) (job : Job) (draws : Draws) (now : ℕ) where
    run_handler-guard :
        (w : NodeWorkerRuntime W) (reservation : Option ResourceReservation)
        → (run_handler c py render w e v a job reservation draws now).0.resource_guard
          ≡ (release_after w.resource_guard reservation
              (dispatch w.handlers w.world
                (request_for c py render w e job draws.request_id now)
                (context_for c py render w e job reservation)
                draws.answer_id
                now).2
              now).0
    unfolding run_handler
    run_handler-guard w reservation =
        let (handlers, world, result) =
          dispatch w.handlers w.world (request_for c py render w e job draws.request_id now)
            (context_for c py render w e job reservation) draws.answer_id now in
        let (guard, freed) = release_after w.resource_guard reservation result now in
        elim (Result-cases freed) [
          | inl (x, f) ↦ rw (f, run_handler) refl
          | inr (x, f) ↦
              rw (f, run_handler)
                (conclude-SameNode c py render
                  (record w { handlers = handlers; world = world; resource_guard = guard }) e v a
                  (if is_good result then handled else broken) result reservation draws
                  now).same_guard
        ]

    after_reserve-guard :
        (w : NodeWorkerRuntime W) (g g' : LocalResourceGuard)
        (t : Result String ResourceReservation)
        → Owes g g' now t
        → SameActive
            (some g)
            (after_reserve c py render
              (record w { resource_guard = some g' })
              e
              v
              a
              job
              t
              draws
              now).0.resource_guard
    unfolding after_reserve
    after_reserve-guard w g g' (raise why) owes =
        rw
          ((refuse-SameNode c py render e v a job draws now (record w { resource_guard = some g' })
            (str_append "resource guard error: " why) none).same_guard)
          owes
    after_reserve-guard w g g' (ok r) owes = elim (Bool-cases (is_granted r)) [
      | inr b ↦
          rw
            (
              b,
              after_reserve,
              (refuse-SameNode c py render e v a job draws now
                  (record w { resource_guard = some g' }) r.reason (some r)).same_guard,
            )
            (owes.0 b)
      | inl b ↦
          rw (b, after_reserve, run_handler-guard (record w { resource_guard = some g' }) (some r))
            (owes.1
              (dispatch w.handlers w.world
                (request_for c py render (record w { resource_guard = some g' }) e job
                  draws.request_id now)
                (context_for c py render (record w { resource_guard = some g' }) e job (some r))
                draws.answer_id now).2)
    ]

    guarded-guard :
        (w : NodeWorkerRuntime W)
        → (guard : Option LocalResourceGuard) → w.resource_guard ≡ guard
        → IsFresh draws.reservation_id guard
        → SameActive guard (guarded c py render w e v a job guard draws now).0.resource_guard
    unfolding guarded
    guarded-guard w (some g) is fresh =
        after_reserve-guard w g (reserve_for py g job draws.reservation_id now).0
          (reserve_for py g job draws.reservation_id now).1
          (reserve_for-Owes py g job draws.reservation_id now fresh)
    guarded-guard w none is fresh =
        if-holds {A = NodeWorkerRuntime W × Result WorkerRuntimeError WorkerProcessOutcome}
          (λ p. SameActive none p.0.resource_guard) w.policy.require_resource_guard _ _
          (λ b.
            rw
              (
                (refuse-SameNode c py render e v a job draws now w
                    "resource guard required by worker policy" none).same_guard,
                is,
              )
              tt)
          (λ b. rw (run_handler-guard w none, is) tt)

  after_accept-guard :
      (w : NodeWorkerRuntime W) (e : SignedChannelEnvelope Fields) (v : ChannelVerification)
      (draws : Draws) (now : ℕ)
      → IsFresh draws.reservation_id w.resource_guard
      → SameActive w.resource_guard (after_accept c py render w e v draws now).0.resource_guard
  unfolding after_accept
  after_accept-guard w e v draws now fresh =
      let sent = send c py render w ack (ack_payload e) e.correlation_id draws.ack_id now in
      let kept =
        (send-SameNode c py render w ack (ack_payload e) e.correlation_id draws.ack_id
          now).same_guard in
      elim (Result-cases sent.1) [
        | inl (x, f) ↦ rw (f, after_accept, kept) (SameActive-refl w.resource_guard)
        | inr (a, f) ↦ elim (Result-cases (read_job py e.payload)) [
          | inl (x, j) ↦ rw (f, j, after_accept, kept) (SameActive-refl w.resource_guard)
          | inr (job, j) ↦
              rw (f, j, after_accept)
                (subst
                  (λ g.
                    SameActive g
                      (guarded c py render sent.0 e v a job sent.0.resource_guard draws
                        now).0.resource_guard)
                  kept
                  (guarded-guard e v a job draws now sent.0 sent.0.resource_guard refl
                    (subst (IsFresh draws.reservation_id) (sym kept) fresh)))
        ]
      ]

  -- If the identifier that is drawn for a reservation is not active in the guard, then after an envelope is
  -- processed the guard has the active reservations that it had before: also where the envelope or the
  -- action is refused, the handler fails, or the call raises.
  pub process_action_envelope-SameActive :
      (w : NodeWorkerRuntime W) (e : SignedChannelEnvelope Fields) (draws : Draws)
      (current clock : ℕ)
      → IsFresh draws.reservation_id w.resource_guard
      → SameActive w.resource_guard
          (process_action_envelope c py render w e draws current clock).0.resource_guard
  unfolding process_action_envelope after_verify recorded
  process_action_envelope-SameActive w e draws current clock fresh =
      let (channel, verified) =
        verify c w.channel e w.session_token (some controller_to_node) (some action) current
          clock in
      let w' = record w { channel = channel } in
      elim (Result-cases verified) [
        | inl (x, f) ↦ rw (f, process_action_envelope) (SameActive-refl w.resource_guard)
        | inr (v, f) ↦ elim (Bool-cases (is_accepted v)) [
          | inr b ↦ rw (f, b, process_action_envelope) (SameActive-refl w.resource_guard)
          | inl b ↦
              rw (f, b, process_action_envelope) (after_accept-guard w' e v draws current fresh)
        ]
      ]
