-- ===== src/Delivery/Service.antt =====
-- node_delivery.py: NodeDeliveryService, over the two operations of a gateway that it calls.
use cyber_hive.Prelude.{
  if◌then◌else◌, string_eq, nat_eq, Result, ok, raise, ℕ, String, Bool, ◌||◌, not, Option, none,
  some, List, [], ◌∷◌, ◌++◌,
}
use cyber_hive.Plan.Metadata.{Fields, end}
use cyber_hive.Channel.Envelope.{
  node_to_controller, ack, SecureChannelError, direction_beq, purpose_beq, direction_eq, purpose_eq,
  SignedChannelEnvelope,
}
use cyber_hive.Gateway.Vault.{Outcome, mapping_result, GatewayReceipt, is_recorded}
use cyber_hive.Delivery.Changes.{schedule_retry, Order, or_else}
use cyber_hive.Delivery.Item.{
  NodeDeliveryError, not_an_ack, escaped, DeliveryStatus, dispatched, DeliveryItem, is_dispatched,
}
use cyber_hive.Delivery.Queue.{
  DeliveryQueue, new_queue, write, enqueue_action, ℤ, ready, register_dispatch, acknowledge,
  sweep_timeouts, cancel,
}

-- what building an envelope raises: an exception of the gateway, or another that is not caught here
pub data BuildError : Type 0 where
  gateway_error : String → BuildError
  channel_error : SecureChannelError → BuildError

-- `build_action_envelope` for an item, which answers the id of the envelope, and `receive`
pub record Gateway (G R : Type 0) : Type 0 where
  pub build_action : G → DeliveryItem → ℕ → G × Result BuildError String
  pub receive :
      G → SignedChannelEnvelope Fields → ℕ → G × Result SecureChannelError (GatewayReceipt R)

pub record DispatchResult : Type 0 where
  pub delivery_id : String
  pub status : DeliveryStatus
  pub reason : String
  pub envelope_id : Option String
  pub error : Option String

-- `DeliveryDispatchResult.ok`
unfoldable pub is_sent : DispatchResult → Bool
is_sent r = is_dispatched r.status

pub record DeliveryService (G : Type 0) : Type 0 where
  pub gateway : G
  pub queue : DeliveryQueue
  pub dispatch_results : List DispatchResult

unfoldable pub failed_result : DeliveryItem → String → DispatchResult
failed_result r error = record {
  delivery_id = r.id;
  status = r.status;
  reason = "dispatch failed";
  envelope_id = none;
  error = some error;
}

unfoldable pub sent_result : DeliveryItem → String → DispatchResult
sent_result r envelope_id = record {
  delivery_id = r.id;
  status = dispatched;
  reason = "envelope queued for transport";
  envelope_id = some envelope_id;
  error = none;
}

-- `receipt.result if isinstance(receipt.result, Mapping) else {}`
unfoldable pub payload_of : {R : Type 0} → Outcome R → Fields
payload_of (mapping_result fields) = fields
payload_of _ = end

-- One call on the service or on its queue, but for `register_dispatch` of the queue, which nothing but
-- `dispatch_ready` calls.
pub data Call (R : Type 0) : Type 0 where
  enqueues : Order → String → ℕ → Call R
  dispatches : ℕ → Option ℤ → Call R
  receipts : GatewayReceipt R → ℕ → Call R
  receives : SignedChannelEnvelope Fields → ℕ → Call R
  sweeps : ℕ → Call R
  acknowledges : Fields → Option String → Option String → ℕ → Call R
  cancels : String → String → ℕ → Call R

module _ {G : Type 0} where
  -- `NodeDeliveryService.__init__`
  unfoldable pub new_service : G → Option DeliveryQueue → DeliveryService G
  new_service gateway queue = record {
    gateway = gateway;
    queue = or_else queue (new_queue none);
    dispatch_results = [];
  }

  unfoldable pub enqueue :
      DeliveryService G
      → Order
      → String
      → ℕ
      → DeliveryService G × Result NodeDeliveryError DeliveryItem
  enqueue s o id now = let (q, r) = enqueue_action s.queue o id now in (record s { queue = q }, r)

  -- one item of the loop in `dispatch_ready`, with the answer of the gateway
  unfoldable pub after_build :
      DeliveryService G
      → DeliveryItem
      → ℕ
      → G × Result BuildError String
      → DeliveryService G × Result NodeDeliveryError DispatchResult
  unfolding failed_result sent_result
  after_build s r now (gateway, raise (channel_error e)) =
      (record s { gateway = gateway }, raise (escaped e))
  after_build s r now (gateway, raise (gateway_error reason)) =
      let again = schedule_retry r reason now in
      let result = failed_result again reason in
      (
        record s {
          gateway = gateway;
          queue = write s.queue again;
          dispatch_results = s.dispatch_results ++ result ∷ [];
        },
        ok result,
      )
  after_build s r now (gateway, ok envelope_id) =
      let result = sent_result r envelope_id in
      let (q, registered) = register_dispatch s.queue r envelope_id now in
      elim registered [
        | raise e ↦ (record s { gateway = gateway; queue = q }, raise e)
        | ok _ ↦ (
          record s {
            gateway = gateway;
            queue = q;
            dispatch_results = s.dispatch_results ++ result ∷ [];
          },
          ok result,
        )
      ]

  module _ {R : Type 0} (g : Gateway G R) where
    unfoldable pub dispatch_item :
        DeliveryService G
        → DeliveryItem
        → ℕ
        → DeliveryService G × Result NodeDeliveryError DispatchResult
    unfolding after_build
    dispatch_item s r now = after_build s r now (g.build_action s.gateway r now)

    -- The items are distinct objects, so each is as the list shows it when its turn comes.
    unfoldable pub dispatch_items :
        DeliveryService G
        → List DeliveryItem
        → ℕ
        → DeliveryService G × Result NodeDeliveryError (List DispatchResult)
    unfolding dispatch_item
    dispatch_items s [] now = (s, ok [])
    dispatch_items s (r ∷ rs) now =
        let (s', done) = dispatch_item s r now in
        let (s'', later) = dispatch_items s' rs now in
        elim done [
          | raise e ↦ (s', raise e)
          | ok result ↦ elim later [
            | raise e ↦ (s'', raise e)
            | ok results ↦ (s'', ok (result ∷ results))
          ]
        ]

    unfoldable pub dispatch_ready :
        DeliveryService G
        → ℕ
        → Option ℤ
        → DeliveryService G × Result NodeDeliveryError (List DispatchResult)
    unfolding dispatch_items
    dispatch_ready s now limit =
        let q = (sweep_timeouts s.queue now).0 in
        dispatch_items (record s { queue = q }) (ready q now limit) now

    unfoldable pub record_gateway_receipt :
        DeliveryService G
        → GatewayReceipt R
        → ℕ
        → DeliveryService G × Result NodeDeliveryError (Option DeliveryItem)
    unfolding payload_of
    record_gateway_receipt s receipt now =
        let (q, r) =
          acknowledge s.queue (payload_of receipt.result) (some receipt.node_id) receipt.session_id
            now in
        if not (is_recorded receipt.status) || not (purpose_beq receipt.purpose ack)
        then (s, ok none)
        else if not (direction_beq receipt.direction node_to_controller)
        then (s, ok none)
        else (record s { queue = q }, elim r [ raise e ↦ raise e | ok item ↦ ok (some item) ])

    unfoldable pub receive_ack_envelope :
        DeliveryService G
        → SignedChannelEnvelope Fields
        → ℕ
        → DeliveryService G × Result NodeDeliveryError (Option DeliveryItem)
    unfolding record_gateway_receipt
    receive_ack_envelope s e now =
        let (gateway, received) = g.receive s.gateway e now in
        let s' = record s { gateway = gateway } in
        if not (direction_beq e.direction node_to_controller) || not (purpose_beq e.purpose ack)
        then (s, raise not_an_ack)
        else elim received [
          | raise x ↦ (s', raise (escaped x))
          | ok receipt ↦ record_gateway_receipt s' receipt now
        ]

    unfoldable pub step : DeliveryService G → Call R → DeliveryService G
    step s (enqueues o id now) = (enqueue s o id now).0
    step s (dispatches now limit) = (dispatch_ready s now limit).0
    step s (receipts receipt now) = (record_gateway_receipt s receipt now).0
    step s (receives e now) = (receive_ack_envelope s e now).0
    step s (sweeps now) = record s { queue = (sweep_timeouts s.queue now).0 }
    step s (acknowledges payload node_id session_id now) = record s {
      queue = (acknowledge s.queue payload node_id session_id now).0;
    }
    step s (cancels id reason now) = record s { queue = (cancel s.queue id reason now).0 }

    unfoldable pub run : DeliveryService G → List (Call R) → DeliveryService G
    run s [] = s
    run s (c ∷ cs) = run (step s c) cs
