-- ===== src/Worker/Runtime.antt =====
-- worker_runtime.py: NodeWorkerRuntime. The handlers change the world `W` of the node. The identifiers that
-- are drawn at random in one call are its `Draws`; `current` is the instant of the call.
use Prim.Native.String.{◌++◌ as str_append}
use cyber_hive.Prelude.{
  ltb, if◌then◌else◌, string_eq, nat_eq, Result, ok, raise, is_empty, ℕ, ◌+◌, String, Bool, true,
  false, Option, none, some, List, [], ◌∷◌, ◌++◌,
}
use cyber_hive.Prelude.Dict.{Dict, get}
use cyber_hive.Plan.Metadata.{text, Fields, end, field}
use cyber_hive.Channel.Envelope.{ChannelPurpose, direction_eq, purpose_eq, SignedChannelEnvelope}
use cyber_hive.Channel.Guard.{ChannelDecision, stale, ChannelVerification, key_eq, SecureChannel}
use cyber_hive.Worker.Payload.{
  WorkerRuntimeError, node_id_needed, session_id_needed, session_token_needed,
  result_limit_too_small, guard_failed, guard_message, Job, resource_request_from_payload,
}
use cyber_hive.Agent.Node.{
  Python, AgentActionType, action_value, action_eq, AgentActionStatus, status_value, given,
  AgentActionResult,
}
use cyber_hive.Agent.Handlers.{ActionHandlerRegistry}
use cyber_hive.Resource.{ResourceReservation, is_active}
use cyber_hive.Resource.Guard.{LocalResourceGuard, reserve, release}

pub data WorkerEnvelopeStatus : Type 0 where
  acked handled refused broken : WorkerEnvelopeStatus

pub record WorkerRuntimePolicy : Type 0 where
  pub send_ack_before_handle : Bool
  pub require_resource_guard : Bool
  pub max_result_payload_bytes : ℕ

-- the constructor call with `__post_init__`
unfoldable pub new_policy : WorkerRuntimePolicy → Result WorkerRuntimeError WorkerRuntimePolicy
new_policy p = if ltb p.max_result_payload_bytes 1024 then raise result_limit_too_small else ok p

pub record WorkerProcessOutcome : Type 0 where
  pub envelope_id : String
  pub node_id : String
  pub status : WorkerEnvelopeStatus
  pub reason : String
  pub verification : ChannelVerification
  pub ack_envelope : Option (SignedChannelEnvelope Fields)
  pub result_envelope : Option (SignedChannelEnvelope Fields)
  pub agent_action_result : Option AgentActionResult
  pub resource_reservation : Option ResourceReservation
  pub created_at : ℕ
  pub id : String

-- `WorkerProcessOutcome.ok`
unfoldable pub is_fine : WorkerProcessOutcome → Bool
is_fine o = elim o.status [ acked ↦ true | handled ↦ true | refused ↦ false | broken ↦ false ]

pub record Draws : Type 0 where
  pub ack_id : String
  pub result_id : String
  pub request_id : String
  pub answer_id : String
  pub reservation_id : String
  pub outcome_id : String

pub record NodeWorkerRuntime (W : Type 0) : Type 0 where
  pub node_id : String
  pub session_id : String
  pub session_token : String
  pub channel : SecureChannel Fields
  pub handlers : ActionHandlerRegistry W
  pub world : W
  pub resource_guard : Option LocalResourceGuard
  pub policy : WorkerRuntimePolicy
  pub outcomes : List WorkerProcessOutcome
  pub outbox : List (SignedChannelEnvelope Fields)
  pub next_sequence : Dict ChannelPurpose ℕ

abbrev pub Reply : Type 0 → Type 0
Reply W = NodeWorkerRuntime W × Result WorkerRuntimeError WorkerProcessOutcome

abbrev is_stale : ChannelDecision → Bool
is_stale stale = true
is_stale _ = false

-- `_denied_outcome`
unfoldable pub denied_outcome :
    SignedChannelEnvelope Fields → ChannelVerification → String → ℕ → WorkerProcessOutcome
denied_outcome e v id now = record {
  envelope_id = e.id;
  node_id = e.node_id;
  status = if is_stale v.status then broken else refused;
  reason = "action envelope denied by secure channel";
  verification = v;
  ack_envelope = none;
  result_envelope = none;
  agent_action_result = none;
  resource_reservation = none;
  created_at = now;
  id = id;
}

-- the guard after `release`, where the reservation is active
unfoldable pub release_after :
    Option LocalResourceGuard
    → Option ResourceReservation
    → AgentActionResult
    → ℕ
    → Option LocalResourceGuard × Result WorkerRuntimeError (Unit {0})
unfolding status_value
release_after (some g) (some r) result now =
    let why = str_append "action finished: " (status_value result.status) in
    let (g', done) = release g r.id why now in
    if is_active r
    then (some g', elim done [ raise x ↦ raise (guard_failed x) | ok _ ↦ ok tt ])
    else (some g, ok tt)
release_after guard _ result now = (guard, ok tt)

-- `reserve` with the request of the payload; an exception of either is its text
unfoldable pub reserve_for :
    Python
    → LocalResourceGuard
    → Job
    → String
    → ℕ
    → LocalResourceGuard × Result String ResourceReservation
unfolding action_value
reserve_for py g job id now = elim (resource_request_from_payload py job.payload) [
  | raise why ↦ (g, raise why)
  | ok q ↦
      let (g', r) = reserve g (action_value job.action) (some q) job.is_dry_run id now in
      (g', elim r [ raise x ↦ raise (guard_message x) | ok reservation ↦ ok reservation ])
]

module _ {W : Type 0} where
  -- `NodeWorkerRuntime.__init__`
  unfoldable pub new_runtime :
      String
      → String
      → String
      → SecureChannel Fields
      → ActionHandlerRegistry W
      → W
      → Option LocalResourceGuard
      → WorkerRuntimePolicy
      → Result WorkerRuntimeError (NodeWorkerRuntime W)
  new_runtime node_id session_id token channel handlers world guard policy =
      if is_empty node_id
      then raise node_id_needed
      else if is_empty session_id
      then raise session_id_needed
      else if is_empty token
      then raise session_token_needed
      else ok (record {
        node_id = node_id;
        session_id = session_id;
        session_token = token;
        channel = channel;
        handlers = handlers;
        world = world;
        resource_guard = guard;
        policy = policy;
        outcomes = [];
        outbox = [];
        next_sequence = [];
      })

  -- `_next_sequence.get(purpose, 0) + 1`
  unfoldable pub next_of : NodeWorkerRuntime W → ChannelPurpose → ℕ
  next_of w purpose = elim (get purpose w.next_sequence) [ none ↦ 1 | some n ↦ n + 1 ]

  unfoldable pub recorded : NodeWorkerRuntime W → WorkerProcessOutcome → Reply W
  recorded w o = (record w { outcomes = w.outcomes ++ o ∷ [] }, ok o)

  -- `_synthetic_result`
  unfoldable pub synthetic_result :
      NodeWorkerRuntime W
      → SignedChannelEnvelope Fields
      → AgentActionType
      → AgentActionStatus
      → String
      → String
      → ℕ
      → AgentActionResult
  synthetic_result w e kind status reason id now = record {
    request_id = str_append "synthetic_" e.id;
    target_node = w.node_id;
    action = kind;
    status = status;
    reason = reason;
    created_at = now;
    completed_at = now;
    id = id;
    metadata = given (field "envelope_id" (text e.id) end);
    events = [];
  }
