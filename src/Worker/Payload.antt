-- ===== src/Worker/Payload.antt =====
-- worker_runtime.py and resource_guard.py: what the worker reads out of the payload of an action, and the
-- payloads that it sends. Python's conversions of values are a parameter.
use Prim.Native.String.{◌++◌ as str_append}
use cyber_hive.Prelude.{
  ltb, if◌then◌else◌, string_eq, nat_eq, Result, ok, raise, ◌>>=◌, is_empty, ℕ, String, Bool, true,
  false, not, Option, none, some, List, [], ◌∷◌,
}
use cyber_hive.Plan.Metadata.{
  Value, null, text, mapping, sequence, Items, nil, cons, Fields, end, field, get_field,
}
use cyber_hive.Resource.{
  ResourceGuardError, must_be_numeric, must_be_finite, must_be_at_least, max_concurrent_at_least_1,
  concurrency_slots_at_least_1, node_id_required, action_required, reservation_not_found, finite,
  ResourceRequest, ResourceReservation,
}
use cyber_hive.Channel.Envelope.{
  SecureChannelError, direction_eq, purpose_eq, SignedChannelEnvelope,
}
use cyber_hive.Agent.Node.{
  Python, AgentActionType, action_value, action_of, action_eq, status_value, ResultMetadata,
  AgentActionResult,
}
use cyber_hive.Agent.Registry.{text_items, or_null}

pub data WorkerRuntimeError : Type 0 where
  node_id_needed session_id_needed session_token_needed result_limit_too_small : WorkerRuntimeError
  unsupported_action : String → WorkerRuntimeError
  tokens_not_iterable : WorkerRuntimeError
  channel_failed : SecureChannelError → WorkerRuntimeError
  guard_failed : ResourceGuardError → WorkerRuntimeError

-- `str` of the exception
unfoldable pub guard_message : ResourceGuardError → String
guard_message (must_be_numeric name) = str_append name " must be numeric"
guard_message (must_be_finite name) = str_append name " must be finite"
guard_message (must_be_at_least name) = str_append name " must be >= 0.0"
guard_message max_concurrent_at_least_1 = "max_concurrent must be at least 1"
guard_message concurrency_slots_at_least_1 = "concurrency_slots must be at least 1"
guard_message node_id_required = "node_id is required"
guard_message action_required = "action is required"
guard_message reservation_not_found = "active reservation not found"

abbrev pub characters : String → List String
characters String.[] = []
characters (String.◌∷◌ c s) = String.◌∷◌ c String.[] ∷ characters s

abbrev field_keys : Fields → List String
field_keys end = []
field_keys (field k v rest) = k ∷ field_keys rest

-- the mapping that a value is, or an empty one
unfoldable pub mapping_of : Option Value → Fields
mapping_of (some (mapping fields)) = fields
mapping_of _ = end

-- What the worker takes from a payload.
pub record Job : Type 0 where
  pub action : AgentActionType
  pub payload : Fields
  pub is_dry_run : Bool
  pub approval_tokens : List String
  pub requested_by : String

-- `raw.get(name, payload.get(name))`
unfoldable pub either_field : String → Fields → Fields → Option Value
either_field name raw payload = elim (get_field name raw) [
  | some v ↦ some v
  | none ↦ get_field name payload
]

module _ (py : Python) where
  -- `str` of a value
  unfoldable pub text_of : Value → String
  text_of (text s) = s
  text_of v = py.str_of v

  abbrev item_texts : Items → List String
  item_texts nil = []
  item_texts (cons v vs) = text_of v ∷ item_texts vs

  -- `tuple(str(value) for value in payload.get("approval_tokens", ()))`
  unfoldable pub tokens_of : Option Value → Result WorkerRuntimeError (List String)
  tokens_of none = ok []
  tokens_of (some (sequence items)) = ok (item_texts items)
  tokens_of (some (text s)) = ok (characters s)
  tokens_of (some (mapping fields)) = ok (field_keys fields)
  tokens_of (some _) = raise tokens_not_iterable

  -- `bool(payload.get("dry_run", True))`
  unfoldable pub flag_of : Option Value → Bool
  flag_of none = true
  flag_of (some (text s)) = not (is_empty s)
  flag_of (some null) = false
  flag_of (some v) = py.is_true v

  -- `str(payload.get("requested_by", "node-worker-runtime"))`
  unfoldable pub requester_of : Option Value → String
  unfolding text_of
  requester_of none = "node-worker-runtime"
  requester_of (some v) = text_of v

  -- `_action_from_payload`
  unfoldable pub action_from : Option Value → Result WorkerRuntimeError AgentActionType
  unfolding text_of action_of
  action_from value =
      let name : String = elim value [ none ↦ "None" | some v ↦ text_of v ] in
      elim (action_of name) [ none ↦ raise (unsupported_action name) | some a ↦ ok a ]

  unfoldable pub read_job : Fields → Result WorkerRuntimeError Job
  unfolding action_from tokens_of flag_of requester_of mapping_of
  read_job payload = do
    action ← action_from (get_field "action" payload)
    tokens ← tokens_of (get_field "approval_tokens" payload)
    ok (record {
      action = action;
      payload = mapping_of (get_field "payload" payload);
      is_dry_run = flag_of (get_field "dry_run" payload);
      approval_tokens = tokens;
      requested_by = requester_of (get_field "requested_by" payload);
    })

  -- `_finite(raw.get(name, payload.get(name, default)), name=name)`, with the message of an exception
  unfoldable pub quantity : String → ℕ → Option Value → Result String ℕ
  quantity name default none = ok default
  quantity name default (some v) = elim (finite (py.float_of v) name) [
    | raise e ↦ raise (guard_message e)
    | ok n ↦ ok n
  ]

  unfoldable pub slots_of : Option Value → Result String ℕ
  slots_of none = ok 1
  slots_of (some v) = py.int_of v

  unfoldable pub resource_request_from_payload : Fields → Result String ResourceRequest
  unfolding either_field quantity slots_of mapping_of
  resource_request_from_payload payload =
      let raw = mapping_of (get_field "resource_request" payload) in
      do
        cpu ← quantity "cpu_units" 100 (either_field "cpu_units" raw payload)
        memory ← quantity "memory_mb" 64000 (either_field "memory_mb" raw payload)
        vram ← quantity "vram_mb" 0 (either_field "vram_mb" raw payload)
        io ← quantity "io_weight" 100 (either_field "io_weight" raw payload)
        slots ← slots_of (either_field "concurrency_slots" raw payload)
        if ltb slots 1
            then raise (guard_message concurrency_slots_at_least_1)
            else ok (record {
              cpu_units = cpu;
              memory_mb = memory;
              vram_mb = vram;
              io_weight = io;
              concurrency_slots = slots;
            })

-- the payload of `_build_ack`
unfoldable pub ack_payload : SignedChannelEnvelope Fields → Fields
ack_payload e = field "ack_for" (text e.id) (
    field "envelope_id" (text e.id) (
      field "delivery_id" (or_null e.correlation_id)
        (field "correlation_id" (or_null e.correlation_id) (field "status" (text "accepted") end))))

-- the payload of `_build_result`; `render` is the mapping of a result's metadata
unfoldable pub result_payload :
    (ResultMetadata → Fields)
    → SignedChannelEnvelope Fields
    → AgentActionResult
    → Option ResourceReservation
    → Fields
unfolding action_value status_value
result_payload render e result reservation =
    let reserved : Value = elim reservation [ none ↦ null | some r ↦ text r.id ] in
    field "delivery_id" (or_null e.correlation_id) (
      field "correlation_id" (or_null e.correlation_id) (
        field "ack_for" (text e.id) (
          field "envelope_id" (text e.id) (
            field "request_id" (text result.request_id) (
              field "action_request_id" (text result.request_id) (
                field "action" (text (action_value result.action)) (
                  field "status" (text (status_value result.status)) (
                    field "reason" (text result.reason) (
                      field "metadata" (mapping (render result.metadata)) (
                        field "events" (sequence (text_items result.events))
                          (field "resource_reservation_id" reserved end)))))))))))
