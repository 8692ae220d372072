-- ===== src/Delivery/Item.antt =====
-- node_delivery.py: the retry policy, one delivery and the ways its status changes. The multiplier of the
-- backoff is in thousandths; the metadata of an event is what schedule_retry writes there.
use Prim.Native.Nat.{◌^◌, min}
use cyber_hive.Prelude.{
  ltb, leb, if◌then◌else◌, is_some, string_eq, nat_eq, ◌==◌, Result, ok, raise, ◌>>◌, raise_if, ℕ,
  ◌+◌, ◌-◌, ◌*◌, ◌/◌, String, Bool, true, false, ◌&&◌, not, Option, none, some, List,
}
use cyber_hive.Plan.Metadata.{Fields}
use cyber_hive.Channel.Envelope.{SecureChannelError, direction_eq, purpose_eq}

pub data NodeDeliveryError : Type 0 where
  max_attempts_too_small ack_timeout_not_positive multiplier_too_small : NodeDeliveryError
  max_backoff_too_small ttl_not_positive : NodeDeliveryError
  node_id_missing session_id_missing action_missing unknown_priority : NodeDeliveryError
  terminal_not_cancelled item_not_found item_not_owned : NodeDeliveryError
  ack_unknown ack_wrong_node ack_session_missing ack_wrong_session not_an_ack : NodeDeliveryError
  escaped : SecureChannelError → NodeDeliveryError

pub data DeliveryStatus : Type 0 where
  queued dispatched acked retry_wait expired dead_letter cancelled : DeliveryStatus

pub data DeliveryPriority : Type 0 where
  low normal high critical : DeliveryPriority

unfoldable pub priority_weight : DeliveryPriority → ℕ
priority_weight critical = 100
priority_weight high = 75
priority_weight normal = 50
priority_weight low = 25

-- an argument that is a priority or its text
pub data PriorityValue : Type 0 where
  member : DeliveryPriority → PriorityValue
  named : String → PriorityValue

unfoldable pub coerce_priority : PriorityValue → Result NodeDeliveryError DeliveryPriority
coerce_priority (member p) = ok p
coerce_priority (named s) =
    if s == "low"
    then ok low
    else if s == "normal"
    then ok normal
    else if s == "high"
    then ok high
    else if s == "critical"
    then ok critical
    else raise unknown_priority

pub record DeliveryPolicy : Type 0 where
  pub max_attempts : ℕ
  pub ack_timeout_seconds : ℕ
  pub initial_backoff_seconds : ℕ
  pub backoff_multiplier : ℕ
  pub max_backoff_seconds : ℕ
  pub ttl_seconds : ℕ

-- the constructor call with `__post_init__`
unfoldable pub new_policy : DeliveryPolicy → Result NodeDeliveryError DeliveryPolicy
new_policy p = do
  raise_if (ltb p.max_attempts 1) max_attempts_too_small
  raise_if (ltb p.ack_timeout_seconds 1) ack_timeout_not_positive
  raise_if (ltb p.backoff_multiplier 1000) multiplier_too_small
  raise_if (ltb p.max_backoff_seconds p.initial_backoff_seconds) max_backoff_too_small
  raise_if (ltb p.ttl_seconds 1) ttl_not_positive
  ok p

abbrev pub delivery_policy : DeliveryPolicy
delivery_policy = record {
  max_attempts = 3;
  ack_timeout_seconds = 30;
  initial_backoff_seconds = 2;
  backoff_multiplier = 2000;
  max_backoff_seconds = 60;
  ttl_seconds = 300;
}

abbrev pub second : ℕ
second = 1000000

unfoldable pub ack_timeout : DeliveryPolicy → ℕ
ack_timeout p = second * p.ack_timeout_seconds

unfoldable pub ttl : DeliveryPolicy → ℕ
ttl p = second * p.ttl_seconds

-- The power is exact, where the code's float may overflow and then raises.
unfoldable pub backoff_for_attempt : DeliveryPolicy → ℕ → ℕ
backoff_for_attempt p attempts =
    let exponent = attempts - 1 in
    let delay = p.initial_backoff_seconds * p.backoff_multiplier ^ exponent / 1000 ^ exponent in
    second * min delay p.max_backoff_seconds

pub data EventMetadata : Type 0 where
  no_metadata : EventMetadata
  retry_metadata : (not_before attempts : ℕ) → EventMetadata

pub record DeliveryHistoryEvent : Type 0 where
  pub status : DeliveryStatus
  pub reason : String
  pub created_at : ℕ
  pub envelope_id : Option String
  pub metadata : EventMetadata

-- The instants that the constructor sets when they are None are never None afterwards.
pub record DeliveryItem : Type 0 where
  pub node_id : String
  pub session_id : String
  pub action : String
  pub payload : Fields
  pub dry_run : Bool
  pub approval_tokens : List String
  pub requested_by : String
  pub priority : DeliveryPriority
  pub policy : DeliveryPolicy
  pub created_at : ℕ
  pub not_before : ℕ
  pub expires_at : ℕ
  pub id : String
  pub status : DeliveryStatus
  pub attempts : ℕ
  pub last_attempt_at : Option ℕ
  pub last_envelope_id : Option String
  pub acknowledged_at : Option ℕ
  pub last_error : Option String
  pub history : List DeliveryHistoryEvent
  pub metadata : Fields

unfoldable pub is_terminal : DeliveryStatus → Bool
is_terminal acked = true
is_terminal expired = true
is_terminal dead_letter = true
is_terminal cancelled = true
is_terminal _ = false

unfoldable pub terminal : DeliveryItem → Bool
unfolding is_terminal
terminal r = is_terminal r.status

abbrev pub is_waiting : DeliveryStatus → Bool
is_waiting queued = true
is_waiting retry_wait = true
is_waiting _ = false

abbrev pub is_dispatched : DeliveryStatus → Bool
is_dispatched dispatched = true
is_dispatched _ = false

unfoldable pub has_expired : DeliveryItem → ℕ → Bool
has_expired r now = leb r.expires_at now

unfoldable pub is_ready : DeliveryItem → ℕ → Bool
unfolding terminal has_expired
is_ready r now =
    not (terminal r) && (is_waiting r.status && (leb r.not_before now && not (has_expired r now)))

-- `now - last >= timeout`, also where `now` lies before `last`
unfoldable pub timed_out : Option ℕ → ℕ → ℕ → Bool
timed_out none timeout now = false
timed_out (some last) timeout now = leb (last + timeout) now

unfoldable pub awaiting_ack : DeliveryItem → ℕ → Bool
unfolding has_expired timed_out
awaiting_ack r now =
    is_dispatched r.status
    && (is_some r.last_attempt_at
        && (not (has_expired r now)
            && not (timed_out r.last_attempt_at (ack_timeout r.policy) now)))

unfoldable pub ack_timed_out : DeliveryItem → ℕ → Bool
unfolding timed_out
ack_timed_out r now =
    is_dispatched r.status && timed_out r.last_attempt_at (ack_timeout r.policy) now
