-- ===== src/Delivery/Writes.antt =====
-- node_delivery.py: the queue's dictionary changes only by writing an item under its id and by a sweep,
-- so that a statement which these two keep holds after any calls. No item is ever removed.
use cyber_hive.Prelude.{
  Bool-cases, Option-cases, is_some, string_eq, nat_eq, Result, ok, raise, Result-cases, ℕ, String,
  ◌≡◌, inl, inr, true, ◌||◌, not, Option, some, List, [], ◌∷◌, arith,
}
use cyber_hive.Prelude.Dict.{Dict, get, put, get-put}
use cyber_hive.Plan.Metadata.{Fields}
use cyber_hive.Channel.Envelope.{
  node_to_controller, ack, direction_beq, purpose_beq, direction_eq, purpose_eq,
  SignedChannelEnvelope,
}
use cyber_hive.Gateway.Vault.{require, GatewayReceipt, is_recorded}
use cyber_hive.Delivery.Changes.{
  mark_dispatched, mark_acked, schedule_retry, cancel_item, Order, or_else, new_item,
}
use cyber_hive.Delivery.Item.{DeliveryItem}
use cyber_hive.Delivery.Queue.{
  DeliveryQueue, write, enqueue_action, ready, register_dispatch, match_ack, ack_item, acknowledge,
  sweep_items, sweep_timeouts, cancel,
}
use cyber_hive.Delivery.Service.{
  BuildError, gateway_error, channel_error, Gateway, DeliveryService, payload_of, Call, enqueues,
  dispatches, receipts, receives, sweeps, acknowledges, cancels, enqueue, after_build,
  dispatch_item, dispatch_items, dispatch_ready, record_gateway_receipt, receive_ack_envelope, step,
  run,
}

module _ (Q : Dict String DeliveryItem → Type 0)
    (on_put : (r : DeliveryItem) (d : Dict String DeliveryItem) → Q d → Q (put r.id r d))
    (on_sweep : (d : Dict String DeliveryItem) (now : ℕ) → Q d → Q (sweep_items d now).0) where
  acknowledge-writes :
      (q : DeliveryQueue) (payload : Fields) (node_id session_id : Option String) (now : ℕ)
      → Q q.items
      → Q (acknowledge q payload node_id session_id now).0.items
  unfolding acknowledge ack_item write
  acknowledge-writes q payload node_id session_id now h =
      elim (Option-cases (match_ack q payload)) [
        | inl e ↦ rw (e, acknowledge) h
        | inr (r, e) ↦
            let done : Q (write q (mark_acked r "ack received" now)).items =
              on_put (mark_acked r "ack received" now) q.items h in
            let all : Q (ack_item q r node_id session_id now).0.items = ground (arith, done) in
            rw (e, acknowledge) all
      ]

  cancel-writes :
      (q : DeliveryQueue) (id reason : String) (now : ℕ)
      → Q q.items
      → Q (cancel q id reason now).0.items
  unfolding cancel require write
  cancel-writes q id reason now h = elim (Option-cases (get id q.items)) [
    | inl e ↦ rw (e, cancel) h
    | inr (r, e) ↦ elim (Result-cases (cancel_item r reason now)) [
      | inl (x, e') ↦ rw (e, e', cancel) h
      | inr (r', e') ↦ rw (e, e', cancel) (on_put r' q.items h)
    ]
  ]

  register-writes :
      (q : DeliveryQueue) (r : DeliveryItem) (envelope : String) (now : ℕ)
      → Q q.items
      → Q (register_dispatch q r envelope now).0.items
  unfolding register_dispatch write
  register-writes q r envelope now h =
      let done = on_put (mark_dispatched r envelope now) q.items h in
      elim (Bool-cases (is_some (get r.id q.items))) [
        | inr b ↦ rw (b, register_dispatch) h
        | inl b ↦ rw (b, register_dispatch) done
      ]

  enqueue-writes :
      (q : DeliveryQueue) (o : Order) (id : String) (now : ℕ)
      → Q q.items
      → Q (enqueue_action q o id now).0.items
  unfolding enqueue_action write
  enqueue-writes q o id now h =
      elim (Result-cases (new_item o (or_else o.policy q.default_policy) id now)) [
        | inl (x, e) ↦ rw (e, enqueue_action) h
        | inr (r, e) ↦ rw (e, enqueue_action) (on_put r q.items h)
      ]

  module _ {G : Type 0} where
    pub after_build-writes :
        (s : DeliveryService G) (r : DeliveryItem) (now : ℕ) (answer : G × Result BuildError String)
        → Q s.queue.items
        → Q (after_build s r now answer).0.queue.items
    unfolding after_build write
    after_build-writes s r now (gateway, raise (channel_error e)) h = h
    after_build-writes s r now (gateway, raise (gateway_error reason)) h =
        on_put (schedule_retry r reason now) s.queue.items h
    after_build-writes s r now (gateway, ok envelope) h =
        elim (Result-cases (register_dispatch s.queue r envelope now).1) [
          | inl (x, e) ↦ rw (e, after_build) (register-writes s.queue r envelope now h)
          | inr (x, e) ↦ rw (e, after_build) (register-writes s.queue r envelope now h)
        ]

    module _ {R : Type 0} (g : Gateway G R) where
      dispatch_items-writes :
          (s : DeliveryService G) (rs : List DeliveryItem) (now : ℕ)
          → Q s.queue.items
          → Q (dispatch_items g s rs now).0.queue.items
      unfolding dispatch_items dispatch_item
      dispatch_items-writes s [] now h = h
      dispatch_items-writes s (r ∷ rs) now h =
          let next = dispatch_item g s r now in
          let kept : Q next.0.queue.items =
            after_build-writes s r now (g.build_action s.gateway r now) h in
          let rest = dispatch_items-writes next.0 rs now kept in
          elim (Result-cases next.1) [
            | inl (x, e) ↦ rw (e, dispatch_items) kept
            | inr (x, e) ↦ elim (Result-cases (dispatch_items g next.0 rs now).1) [
              | inl (y, e') ↦ rw (e, e', dispatch_items) rest
              | inr (y, e') ↦ rw (e, e', dispatch_items) rest
            ]
          ]

      receipt-writes :
          (s : DeliveryService G) (receipt : GatewayReceipt R) (now : ℕ)
          → Q s.queue.items
          → Q (record_gateway_receipt g s receipt now).0.queue.items
      unfolding record_gateway_receipt
      receipt-writes s receipt now h =
          let done =
            acknowledge-writes s.queue (payload_of receipt.result) (some receipt.node_id)
              receipt.session_id now h in
          elim (Bool-cases
            (not (is_recorded receipt.status) || not (purpose_beq receipt.purpose ack))) [
              | inl b ↦ rw (b, record_gateway_receipt) h
              | inr b ↦
                  elim (Bool-cases (not (direction_beq receipt.direction node_to_controller))) [
                    | inl d ↦ rw (b, d, record_gateway_receipt) h
                    | inr d ↦ rw (b, d, record_gateway_receipt) done
                  ]
            ]

      receive-writes :
          (s : DeliveryService G) (e : SignedChannelEnvelope Fields) (now : ℕ)
          → Q s.queue.items
          → Q (receive_ack_envelope g s e now).0.queue.items
      unfolding receive_ack_envelope
      receive-writes s e now h =
          elim (Bool-cases (
            not (direction_beq e.direction node_to_controller)
            || not (purpose_beq e.purpose ack))) [
              | inl b ↦ rw (b, receive_ack_envelope) h
              | inr b ↦ elim (Result-cases (g.receive s.gateway e now).1) [
                | inl (x, r) ↦ rw (b, r, receive_ack_envelope) h
                | inr (x, r) ↦
                    rw (b, r, receive_ack_envelope)
                      (receipt-writes (record s { gateway = (g.receive s.gateway e now).0 }) x now
                        h)
              ]
            ]

      step-writes :
          (s : DeliveryService G) (c : Call R) → Q s.queue.items → Q (step g s c).queue.items
      unfolding step enqueue dispatch_ready sweep_timeouts
      step-writes s (enqueues o id now) h = enqueue-writes s.queue o id now h
      step-writes s (dispatches now limit) h =
          let q = (sweep_timeouts s.queue now).0 in
          dispatch_items-writes (record s { queue = q }) (ready q now limit) now
            (on_sweep s.queue.items now h)
      step-writes s (receipts receipt now) h = receipt-writes s receipt now h
      step-writes s (receives e now) h = receive-writes s e now h
      step-writes s (sweeps now) h = on_sweep s.queue.items now h
      step-writes s (acknowledges payload node_id session_id now) h =
          acknowledge-writes s.queue payload node_id session_id now h
      step-writes s (cancels id reason now) h = cancel-writes s.queue id reason now h

      pub run-writes :
          (s : DeliveryService G) (cs : List (Call R))
          → Q s.queue.items
          → Q (run g s cs).queue.items
      unfolding run
      run-writes s [] h = h
      run-writes s (c ∷ cs) h = run-writes (step g s c) cs (step-writes s c h)

-- an item stands under `id`
abbrev pub Stands : String → Dict String DeliveryItem → Type 0
Stands id d = is_some (get id d) ≡ true

pub Stands-put :
    (id : String) (r : DeliveryItem) (d : Dict String DeliveryItem)
    → Stands id d
    → Stands id (put r.id r d)
Stands-put id r d h = ground (arith, get-put r.id id r d)

pub Stands-sweep_items :
    (id : String) (d : Dict String DeliveryItem) (now : ℕ)
    → Stands id d
    → Stands id (sweep_items d now).0
unfolding sweep_items get
Stands-sweep_items id [] now h = h
Stands-sweep_items id ((k, r) ∷ d) now h = ground (arith, Stands-sweep_items id d now)

pub run-Stands :
    {G R : Type 0} (g : Gateway G R) (s : DeliveryService G) (cs : List (Call R)) (id : String)
    → Stands id s.queue.items
    → Stands id (run g s cs).queue.items
run-Stands g s cs id h = run-writes (Stands id) (Stands-put id) (Stands-sweep_items id) g s cs h
