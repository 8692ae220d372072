-- ===== src/Worker/Processing.antt =====
-- worker_runtime.py: `process_action_envelope`, in the parts of its body. The identifiers drawn in one call
-- are its `Draws`; `current` is the instant of the call.
use Prim.Native.String.{◌++◌ as str_append}
use cyber_hive.Worker.Runtime.{
  WorkerEnvelopeStatus, handled, refused, broken, Draws, NodeWorkerRuntime, Reply, denied_outcome,
  release_after, reserve_for, next_of, recorded, synthetic_result,
}
use cyber_hive.Prelude.{
  if◌then◌else◌, string_eq, nat_eq, Result, ok, raise, ℕ, String, not, Option, none, some, [], ◌∷◌,
  ◌++◌,
}
use cyber_hive.Prelude.Dict.{put}
use cyber_hive.Plan.Metadata.{text, Fields, end, field}
use cyber_hive.Channel.Envelope.{
  node_to_controller, controller_to_node, ChannelPurpose, action, action_result, ack,
  SecureChannelError, direction_eq, purpose_eq, SignedChannelEnvelope, Crypto,
}
use cyber_hive.Channel.Guard.{ChannelVerification, is_accepted, key_eq, verify, build_envelope}
use cyber_hive.Worker.Payload.{channel_failed, Job, read_job, ack_payload, result_payload}
use cyber_hive.Agent.Node.{
  Python, action_eq, denied, AgentActionRequest, ActionHandlerContext, ResultMetadata,
  AgentActionResult, is_good,
}
use cyber_hive.Agent.Handlers.{dispatch}
use cyber_hive.Resource.{ResourceReservation, is_granted}
use cyber_hive.Resource.Guard.{LocalResourceGuard}

module _ {W : Type 0} (c : Crypto Fields) (py : Python) (render : ResultMetadata → Fields) where
  -- `_build_ack` and `_build_result`: the next sequence is taken, and what is signed goes to the outbox
  unfoldable pub send :
      NodeWorkerRuntime W
      → ChannelPurpose
      → Fields
      → Option String
      → String
      → ℕ
      → NodeWorkerRuntime W × Result SecureChannelError (SignedChannelEnvelope Fields)
  unfolding next_of
  send w purpose payload correlation id now =
      let n = next_of w purpose in
      let w' = record w { next_sequence = put purpose n w.next_sequence } in
      elim (build_envelope c w.node_id w.session_id node_to_controller purpose n payload
        w.session_token now (some 300) correlation end id) [
          | raise x ↦ (w', raise x)
          | ok sent ↦ (record w' { outbox = w'.outbox ++ sent ∷ [] }, ok sent)
        ]

  -- the result is sent and the outcome recorded
  unfoldable pub conclude :
      NodeWorkerRuntime W
      → SignedChannelEnvelope Fields
      → ChannelVerification
      → SignedChannelEnvelope Fields
      → WorkerEnvelopeStatus
      → AgentActionResult
      → Option ResourceReservation
      → Draws
      → ℕ
      → Reply W
  unfolding recorded
  conclude w e v ack_sent status result reservation draws now =
      let (w', sent) =
        send w action_result (result_payload render e result reservation) e.correlation_id
          draws.result_id now in
      elim sent [
        | raise x ↦ (w', raise (channel_failed x))
        | ok result_sent ↦ recorded w' (record {
          envelope_id = e.id;
          node_id = e.node_id;
          status = status;
          reason = result.reason;
          verification = v;
          ack_envelope = some ack_sent;
          result_envelope = some result_sent;
          agent_action_result = some result;
          resource_reservation = reservation;
          created_at = now;
          id = draws.outcome_id;
        })
      ]

  unfoldable pub context_for :
      NodeWorkerRuntime W
      → SignedChannelEnvelope Fields
      → Job
      → Option ResourceReservation
      → ActionHandlerContext
  context_for w e job reservation = record {
    node_id = w.node_id;
    session_id = some w.session_id;
    delivery_id = e.correlation_id;
    correlation_id = e.correlation_id;
    requested_by = job.requested_by;
    is_dry_run = job.is_dry_run;
    approval_tokens = job.approval_tokens;
    resource_reservation_id = elim reservation [ none ↦ none | some r ↦ some r.id ];
    metadata = field "envelope_id" (text e.id) end;
  }

  unfoldable pub request_for :
      NodeWorkerRuntime W → SignedChannelEnvelope Fields → Job → String → ℕ → AgentActionRequest
  request_for w e job id now = record {
    target_node = w.node_id;
    action = job.action;
    payload = job.payload;
    is_dry_run = job.is_dry_run;
    approval_tokens = job.approval_tokens;
    requested_by = job.requested_by;
    correlation_id = e.correlation_id;
    id = id;
    created_at = now;
  }

  -- the handler runs, the reservation is released, and the result is sent
  unfoldable pub run_handler :
      NodeWorkerRuntime W
      → SignedChannelEnvelope Fields
      → ChannelVerification
      → SignedChannelEnvelope Fields
      → Job
      → Option ResourceReservation
      → Draws
      → ℕ
      → Reply W
  unfolding context_for request_for release_after conclude
  run_handler w e v ack_sent job reservation draws now =
      let (handlers, world, result) =
        dispatch w.handlers w.world (request_for w e job draws.request_id now)
          (context_for w e job reservation) draws.answer_id now in
      let (guard, freed) = release_after w.resource_guard reservation result now in
      let w' = record w { handlers = handlers; world = world; resource_guard = guard } in
      elim freed [
        | raise x ↦ (w', raise x)
        | ok _ ↦
            conclude w' e v ack_sent (if is_good result then handled else broken) result reservation
              draws now
      ]

  -- an action that is refused before its handler runs
  unfoldable pub refuse :
      NodeWorkerRuntime W
      → SignedChannelEnvelope Fields
      → ChannelVerification
      → SignedChannelEnvelope Fields
      → Job
      → String
      → Option ResourceReservation
      → Draws
      → ℕ
      → Reply W
  unfolding synthetic_result conclude
  refuse w e v ack_sent job why reservation draws now =
      let result = synthetic_result w e job.action denied why draws.answer_id now in
      conclude w e v ack_sent refused result reservation draws now

  -- what follows `reserve`
  unfoldable pub after_reserve :
      NodeWorkerRuntime W
      → SignedChannelEnvelope Fields
      → ChannelVerification
      → SignedChannelEnvelope Fields
      → Job
      → Result String ResourceReservation
      → Draws
      → ℕ
      → Reply W
  unfolding refuse run_handler
  after_reserve w e v ack_sent job (raise why) draws now =
      refuse w e v ack_sent job (str_append "resource guard error: " why) none draws now
  after_reserve w e v ack_sent job (ok r) draws now =
      if not (is_granted r)
      then refuse w e v ack_sent job r.reason (some r) draws now
      else run_handler w e v ack_sent job (some r) draws now

  unfoldable pub guarded :
      NodeWorkerRuntime W
      → SignedChannelEnvelope Fields
      → ChannelVerification
      → SignedChannelEnvelope Fields
      → Job
      → Option LocalResourceGuard
      → Draws
      → ℕ
      → Reply W
  unfolding reserve_for after_reserve refuse run_handler
  guarded w e v ack_sent job (some g) draws now =
      let (g', r) = reserve_for py g job draws.reservation_id now in
      after_reserve (record w { resource_guard = some g' }) e v ack_sent job r draws now
  guarded w e v ack_sent job none draws now =
      if w.policy.require_resource_guard
      then refuse w e v ack_sent job "resource guard required by worker policy" none draws now
      else run_handler w e v ack_sent job none draws now

  -- what follows an accepted verification
  unfoldable pub after_accept :
      NodeWorkerRuntime W → SignedChannelEnvelope Fields → ChannelVerification → Draws → ℕ → Reply W
  unfolding send guarded
  after_accept w e v draws now =
      let (w', sent) = send w ack (ack_payload e) e.correlation_id draws.ack_id now in
      elim sent [
        | raise x ↦ (w', raise (channel_failed x))
        | ok ack_sent ↦ elim (read_job py e.payload) [
          | raise x ↦ (w', raise x)
          | ok job ↦ guarded w' e v ack_sent job w'.resource_guard draws now
        ]
      ]

  unfoldable pub after_verify :
      NodeWorkerRuntime W
      → SignedChannelEnvelope Fields
      → Draws
      → ℕ
      → Result SecureChannelError ChannelVerification
      → Reply W
  unfolding recorded denied_outcome after_accept
  after_verify w e draws now (raise x) = (w, raise (channel_failed x))
  after_verify w e draws now (ok v) =
      if not (is_accepted v)
      then recorded w (denied_outcome e v draws.outcome_id now)
      else after_accept w e v draws now

  -- `clock` is the time at which the verification is made
  unfoldable pub process_action_envelope :
      NodeWorkerRuntime W → SignedChannelEnvelope Fields → Draws → ℕ → ℕ → Reply W
  unfolding after_verify
  process_action_envelope w e draws current clock =
      let (channel, verified) =
        verify c w.channel e w.session_token (some controller_to_node) (some action) current
          clock in
      after_verify (record w { channel = channel }) e draws current verified
