-- ===== src/Examples/Deliveries.antt =====
-- node_delivery.py at concrete inputs: a queue with one delivery, and a gateway that knows one node.
use Prim.Native.String.{◌++◌ as str_append}
use mathlib.Core.List.{Perm}
use cyber_hive.Prelude.{
  if◌then◌else◌, string_eq, nat_eq, ◌==◌, length, keep, ok, raise, ℕ, ◌+◌, ◌-◌, String, ◌≡◌, refl,
  true, Option, none, some, List, [], ◌∷◌, ◌++◌,
}
use cyber_hive.Prelude.Dict.{get}
use cyber_hive.Plan.Metadata.{text, Fields, end, field, get_field}
use cyber_hive.Channel.Envelope.{direction_eq, purpose_eq, SignedChannelEnvelope}
use cyber_hive.Gateway.Vault.{message_recorded, mapping_result, GatewayReceipt}
use cyber_hive.Delivery.Changes.{mark_dispatched, mark_acked, mark_cancelled, Order, item_of}
use cyber_hive.Delivery.Item.{
  terminal_not_cancelled, high, named, delivery_policy, DeliveryItem, is_terminal, terminal,
  is_ready,
}
use cyber_hive.Delivery.Queue.{
  DeliveryQueue, write, enqueue_action, values, pos, negsuc, ready, register_dispatch, candidates,
  as_name, match_candidates, match_ack, differs, ack_item, acknowledge, sweep_timeouts, cancel,
}
use cyber_hive.Delivery.Service.{
  gateway_error, Gateway, DeliveryService, Call, enqueues, dispatches, acknowledges, dispatch_ready,
  run,
}
use cyber_hive.Delivery.Moves.{SameOrder, Extends}
use cyber_hive.Delivery.Lifecycle.{Reaches, stage}
use cyber_hive.Delivery.Keeps.{Holds}
use cyber_hive.Delivery.Stages.{run-Refines, run-settled}
use cyber_hive.Delivery.Audit.{IsSound, item_of-IsSound, run-IsSound}
use cyber_hive.Delivery.Sorted.{IsSorted, ready-IsSorted}
use cyber_hive.Delivery.Acks.{
  IsOwnAck, acknowledge-IsOwnAck, raises-unchanged, acknowledge-register_dispatch,
}
use cyber_hive.Delivery.Dispatch.{Ends, dispatch_ready-Ends}

abbrev receipt_of : SignedChannelEnvelope Fields → ℕ → GatewayReceipt (Unit {0})
receipt_of e now = record {
  status = message_recorded;
  envelope_id = e.id;
  node_id = e.node_id;
  purpose = e.purpose;
  direction = e.direction;
  reason = "ack recorded";
  verification = none;
  result = mapping_result e.payload;
  session_id = some e.session_id;
  created_at = now;
  id = "gwr_1";
}

-- its state is the number of the envelopes that it built
abbrev toy_gateway : Gateway ℕ (Unit {0})
toy_gateway = record {
  build_action = λ built r now. (
    built + 1,
    if r.node_id == "edge-1"
        then ok (str_append "env_" r.id)
        else raise (gateway_error "no session credential available"),
  );
  receive = λ built e now. (built, ok (receipt_of e now));
}

abbrev order : Order
order = record {
  node_id = "edge-1";
  session_id = "ses_1";
  action = "health_check";
  payload = end;
  dry_run = true;
  approval_tokens = [];
  priority = named "high";
  requested_by = "operator";
  policy = none;
  not_before = none;
  expires_at = none;
  metadata = end;
}

abbrev first_item : DeliveryItem
first_item = item_of order delivery_policy high "dlv_1" 1000000

abbrev gone_item : DeliveryItem
gone_item = mark_cancelled first_item "not needed" 2000000

abbrev queue_of : DeliveryItem → DeliveryQueue
queue_of r = record {
  default_policy = delivery_policy;
  items = ("dlv_1", r) ∷ [];
  by_envelope = [];
}

abbrev service_of : DeliveryItem → DeliveryService ℕ
service_of r = record { gateway = 0; queue = queue_of r; dispatch_results = [] }

abbrev ack_for_delivery : Fields
ack_for_delivery = field "delivery_id" (text "dlv_1") end

abbrev delivery_calls : List (Call (Unit {0}))
delivery_calls =
    dispatches 2000000 none
    ∷ enqueues order "dlv_2" 3000000
    ∷ acknowledges ack_for_delivery (some "edge-1") (some "ses_1") 4000000
    ∷ []

run-Refines_example :
    (r' : DeliveryItem) × (get "dlv_1"
        (run toy_gateway (service_of first_item) delivery_calls).queue.items
      ≡ some r')
    × Reaches first_item.policy.max_attempts (stage first_item) (stage r')
    × SameOrder first_item r'
    × Extends first_item r'
unfolding get item_of
run-Refines_example =
    run-Refines toy_gateway (service_of first_item) delivery_calls "dlv_1" first_item (refl, tt)
      (refl, tt) refl (tt, (refl, (tt, tt)))

run-settled_example :
    get "dlv_1" (run toy_gateway (service_of gone_item) delivery_calls).queue.items ≡ some gone_item
unfolding get item_of mark_cancelled terminal is_terminal
run-settled_example =
    run-settled toy_gateway (service_of gone_item) delivery_calls "dlv_1" gone_item (refl, tt)
      (refl, tt) refl (tt, (refl, (tt, tt))) refl

run-IsSound_example : Holds IsSound (run toy_gateway (service_of first_item) delivery_calls)
run-IsSound_example =
    run-IsSound toy_gateway (service_of first_item) delivery_calls
      (item_of-IsSound order delivery_policy high "dlv_1" 1000000, tt)

dispatch_ready-Ends_example :
    Ends toy_gateway
      (service_of first_item)
      (ready (sweep_timeouts (queue_of first_item) 2000000).0 2000000 (some (pos 5)))
      2000000
      (dispatch_ready toy_gateway (service_of first_item) 2000000 (some (pos 5)))
unfolding get item_of
dispatch_ready-Ends_example =
    dispatch_ready-Ends toy_gateway (service_of first_item) 2000000 (some (pos 5)) (refl, tt)
      (refl, tt)

ready-IsSorted_example :
    IsSorted (ready (queue_of first_item) 2000000 none)
    × Perm
        (ready (queue_of first_item) 2000000 none)
        (keep (λ r. is_ready r 2000000) (values (queue_of first_item).items))
    × (length (ready (queue_of first_item) 2000000 (some (negsuc 0)))
        ≡ length (ready (queue_of first_item) 2000000 none) - 1)
    × (rest : List DeliveryItem) × (ready (queue_of first_item) 2000000 none
        ≡ ready (queue_of first_item) 2000000 (some (negsuc 0)) ++ rest)
ready-IsSorted_example = ready-IsSorted (queue_of first_item) 2000000 (negsuc 0)

acknowledge-IsOwnAck_example :
    (r : DeliveryItem) × IsOwnAck
      (queue_of first_item)
      ack_for_delivery
      (some "edge-1")
      (some "ses_1")
      r
    × (acknowledge (queue_of first_item) ack_for_delivery (some "edge-1") (some "ses_1") 4000000 ≡ (
        if terminal r then (queue_of first_item, ok r) else (
          write (queue_of first_item) (mark_acked r "ack received" 4000000),
          ok (mark_acked r "ack received" 4000000),
        )))
unfolding acknowledge ack_item differs match_ack candidates match_candidates as_name get get_field
    terminal is_terminal item_of mark_acked
acknowledge-IsOwnAck_example =
    acknowledge-IsOwnAck (queue_of first_item) ack_for_delivery (some "edge-1") (some "ses_1")
      4000000 (mark_acked first_item "ack received" 4000000) refl

raises-unchanged_example :
    ((o : Order) (id : String)
      → (enqueue_action (queue_of gone_item) o id 3000000).1 ≡ raise terminal_not_cancelled
      → (enqueue_action (queue_of gone_item) o id 3000000).0 ≡ queue_of gone_item)
    × ((payload : Fields) (node_id session_id : Option String)
        → (acknowledge (queue_of gone_item) payload node_id session_id 3000000).1
          ≡ raise terminal_not_cancelled
        → (acknowledge (queue_of gone_item) payload node_id session_id 3000000).0
          ≡ queue_of gone_item)
    × ((id reason : String)
        → (cancel (queue_of gone_item) id reason 3000000).1 ≡ raise terminal_not_cancelled
        → (cancel (queue_of gone_item) id reason 3000000).0 ≡ queue_of gone_item)
    × ((r : DeliveryItem) (envelope : String)
        → (register_dispatch (queue_of gone_item) r envelope 3000000).1
          ≡ raise terminal_not_cancelled
        → (register_dispatch (queue_of gone_item) r envelope 3000000).0 ≡ queue_of gone_item)
raises-unchanged_example = raises-unchanged (queue_of gone_item) terminal_not_cancelled 3000000

abbrev ack_for_envelope : Fields
ack_for_envelope = field "ack_for" (text "env_1") end

acknowledge-register_dispatch_example :
    let done = mark_acked (mark_dispatched first_item "env_1" 2000000) "ack received" 3000000 in
    acknowledge
      (register_dispatch (queue_of first_item) first_item "env_1" 2000000).0
      ack_for_envelope
      (some first_item.node_id)
      (some first_item.session_id)
      3000000
    ≡ (write (register_dispatch (queue_of first_item) first_item "env_1" 2000000).0 done, ok done)
unfolding get get_field item_of
acknowledge-register_dispatch_example =
    acknowledge-register_dispatch (queue_of first_item) first_item "env_1" 2000000 refl
      ack_for_envelope 3000000 refl refl refl refl refl
