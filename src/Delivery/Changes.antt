-- ===== src/Delivery/Changes.antt =====
-- node_delivery.py: the changes of one delivery, and the order that makes one.
use cyber_hive.Prelude.{
  leb, if◌then◌else◌, string_eq, nat_eq, Result, ok, raise, ◌>>=◌, ◌>>◌, raise_if, is_empty, ℕ, ◌+◌,
  String, Bool, Option, none, some, List, [], ◌∷◌, ◌++◌,
}
use cyber_hive.Plan.Metadata.{Fields}
use cyber_hive.Channel.Envelope.{direction_eq, purpose_eq}
use cyber_hive.Delivery.Item.{
  NodeDeliveryError, node_id_missing, session_id_missing, action_missing, terminal_not_cancelled,
  DeliveryStatus, queued, dispatched, acked, retry_wait, expired, dead_letter, cancelled,
  DeliveryPriority, PriorityValue, coerce_priority, DeliveryPolicy, ttl, backoff_for_attempt,
  EventMetadata, no_metadata, retry_metadata, DeliveryHistoryEvent, DeliveryItem, terminal,
}

-- `record`, which appends to the history
unfoldable pub recorded :
    DeliveryItem
    → DeliveryStatus
    → String
    → Option String
    → EventMetadata
    → ℕ
    → List DeliveryHistoryEvent
recorded r status reason envelope metadata now =
    r.history
    ++ record {
      status = status;
      reason = reason;
      created_at = now;
      envelope_id = envelope;
      metadata = metadata;
    }
      ∷ []

unfoldable pub mark_dispatched : DeliveryItem → String → ℕ → DeliveryItem
unfolding recorded
mark_dispatched r envelope_id now = record r {
  status = dispatched;
  attempts = r.attempts + 1;
  last_attempt_at = some now;
  last_envelope_id = some envelope_id;
  last_error = none;
  history = recorded r dispatched "envelope dispatched" (some envelope_id) no_metadata now;
}

unfoldable pub mark_acked : DeliveryItem → String → ℕ → DeliveryItem
unfolding recorded
mark_acked r reason now = record r {
  status = acked;
  acknowledged_at = some now;
  history = recorded r acked reason r.last_envelope_id no_metadata now;
}

unfoldable pub mark_expired : DeliveryItem → String → ℕ → DeliveryItem
unfolding recorded
mark_expired r reason now = record r {
  status = expired;
  last_error = some reason;
  history = recorded r expired reason r.last_envelope_id no_metadata now;
}

unfoldable pub mark_dead_letter : DeliveryItem → String → ℕ → DeliveryItem
unfolding recorded
mark_dead_letter r reason now = record r {
  status = dead_letter;
  last_error = some reason;
  history = recorded r dead_letter reason r.last_envelope_id no_metadata now;
}

-- `schedule_retry` once attempts are left
unfoldable pub wait_for_retry : DeliveryItem → String → ℕ → DeliveryItem
unfolding recorded backoff_for_attempt
wait_for_retry r reason now =
    let not_before = now + backoff_for_attempt r.policy r.attempts in
    record r {
      status = retry_wait;
      last_error = some reason;
      not_before = not_before;
      history =
          recorded r retry_wait reason r.last_envelope_id (retry_metadata not_before r.attempts)
            now;
    }

unfoldable pub schedule_retry : DeliveryItem → String → ℕ → DeliveryItem
unfolding mark_dead_letter wait_for_retry
schedule_retry r reason now =
    if leb r.policy.max_attempts r.attempts
    then mark_dead_letter r reason now
    else wait_for_retry r reason now

unfoldable pub mark_cancelled : DeliveryItem → String → ℕ → DeliveryItem
unfolding recorded
mark_cancelled r reason now = record r {
  status = cancelled;
  last_error = some reason;
  history = recorded r cancelled reason r.last_envelope_id no_metadata now;
}

-- `DeliveryItem.cancel`
unfoldable pub cancel_item : DeliveryItem → String → ℕ → Result NodeDeliveryError DeliveryItem
unfolding terminal mark_cancelled
cancel_item r reason now =
    if terminal r then raise terminal_not_cancelled else ok (mark_cancelled r reason now)

-- the arguments of `enqueue_action`
pub record Order : Type 0 where
  pub node_id : String
  pub session_id : String
  pub action : String
  pub payload : Fields
  pub dry_run : Bool
  pub approval_tokens : List String
  pub priority : PriorityValue
  pub requested_by : String
  pub policy : Option DeliveryPolicy
  pub not_before : Option ℕ
  pub expires_at : Option ℕ
  pub metadata : Fields

abbrev pub or_else {ℓ} : {A : Type ℓ} → Option A → A → A
or_else none d = d
or_else (some a) d = a

-- the item of a call whose tests have passed
unfoldable pub item_of : Order → DeliveryPolicy → DeliveryPriority → String → ℕ → DeliveryItem
item_of o policy priority id now = record {
  node_id = o.node_id;
  session_id = o.session_id;
  action = o.action;
  payload = o.payload;
  dry_run = o.dry_run;
  approval_tokens = o.approval_tokens;
  requested_by = o.requested_by;
  priority = priority;
  policy = policy;
  created_at = now;
  not_before = or_else o.not_before now;
  expires_at = or_else o.expires_at (now + ttl policy);
  id = id;
  status = queued;
  attempts = 0;
  last_attempt_at = none;
  last_envelope_id = none;
  acknowledged_at = none;
  last_error = none;
  history =
      record {
        status = queued;
        reason = "delivery queued";
        created_at = now;
        envelope_id = none;
        metadata = no_metadata;
      }
      ∷ [];
  metadata = o.metadata;
}

-- The constructor call with `__post_init__`. `enqueue_action` has converted the priority before.
unfoldable pub new_item :
    Order → DeliveryPolicy → String → ℕ → Result NodeDeliveryError DeliveryItem
unfolding coerce_priority item_of
new_item o policy id now = do
  priority ← coerce_priority o.priority
  raise_if (is_empty o.node_id) node_id_missing
  raise_if (is_empty o.session_id) session_id_missing
  raise_if (is_empty o.action) action_missing
  ok (item_of o policy priority id now)
