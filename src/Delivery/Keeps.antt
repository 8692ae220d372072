-- ===== src/Delivery/Keeps.antt =====
-- node_delivery.py: a statement about every item that each change of an item keeps, every call of the
-- service keeps, whatever its gateway answers.
use mathlib.Core.Path.{subst}
use mathlib.Core.Option.{some-injective}
use cyber_hive.Prelude.{
  leb, leb→le, Bool-cases, Option-cases, is_some, string_eq, nat_eq, length, keep, All, Result, ok,
  raise, Result-cases, ℕ, zero, suc, ◌-◌, String, ◌≡◌, sym, ◌∙◌, inl, inr, true, false, ◌||◌, not,
  Option, none, some, List, [], ◌∷◌, arith,
}
use cyber_hive.Prelude.Dict.{Dict, get, Each, Each-get, Each-put}
use cyber_hive.Channel.Envelope.{
  node_to_controller, ack, direction_beq, purpose_beq, direction_eq, purpose_eq,
  SignedChannelEnvelope,
}
use cyber_hive.Delivery.Changes.{
  mark_dispatched, mark_acked, mark_expired, schedule_retry, mark_cancelled, cancel_item, Order,
  or_else, new_item,
}
use cyber_hive.Delivery.Item.{
  DeliveryPolicy, DeliveryItem, is_terminal, terminal, is_waiting, has_expired, is_ready,
  ack_timed_out,
}
use cyber_hive.Delivery.Queue.{
  DeliveryQueue, write, enqueue_action, require, values, comes_before, insert, sort, take, ℤ, pos,
  negsuc, limited, ready, register_dispatch, candidates, as_name, match_candidates, match_ack,
  ack_item, acknowledge, swept, sweep_items, sweep_timeouts, cancel,
}
use cyber_hive.Delivery.Service.{
  BuildError, gateway_error, channel_error, Gateway, DeliveryService, payload_of, Call, enqueues,
  dispatches, receipts, receives, sweeps, acknowledges, cancels, enqueue, after_build,
  dispatch_item, dispatch_items, dispatch_ready, record_gateway_receipt, receive_ack_envelope, step,
  run,
}
use cyber_hive.Delivery.Lifecycle.{Move, sends, waits, gives_up, completes, lapses, stops}
use cyber_hive.Plan.Metadata.{Value, Fields}
use cyber_hive.Gateway.Vault.{GatewayReceipt, is_recorded}

pub record IsKept (P : String → DeliveryItem → Type 0) : Type 0 where
  pub own_id : (k : String) (r : DeliveryItem) → P k r → r.id ≡ k
  pub on_move : (k : String) (r r' : DeliveryItem) → P k r → Move r r' → P k r'

abbrev pub Holds : {G : Type 0} → (String → DeliveryItem → Type 0) → DeliveryService G → Type 0
Holds P s = Each P s.queue.items

abbrev Waiting : (String → DeliveryItem → Type 0) → DeliveryItem → Type 0
Waiting P r = P r.id r × (is_waiting r.status ≡ true)

module _ {A : Type 0} (P : A → Type 0) where
  All-take : (n : ℕ) (xs : List A) → All P xs → All P (take n xs)
  unfolding take
  All-take n [] h = tt
  All-take zero (x ∷ xs) h = tt
  All-take (suc n) (x ∷ xs) h = (h.0, All-take n xs h.1)

module _ (P : DeliveryItem → Type 0) where
  All-insert : (r : DeliveryItem) (xs : List DeliveryItem) → P r → All P xs → All P (insert r xs)
  unfolding insert
  All-insert r [] p h = (p, tt)
  All-insert r (x ∷ xs) p h = elim (Bool-cases (comes_before x r)) [
    | inl b ↦ rw b (h.0, All-insert r xs p h.1)
    | inr b ↦ rw b (p, h)
  ]

  pub All-sort : (xs : List DeliveryItem) → All P xs → All P (sort xs)
  unfolding sort
  All-sort [] h = tt
  All-sort (x ∷ xs) h = All-insert x (sort xs) h.0 (All-sort xs h.1)

  pub All-limited :
      (limit : Option ℤ) (xs : List DeliveryItem) → All P xs → All P (limited limit xs)
  unfolding limited
  All-limited none xs h = h
  All-limited (some (pos n)) xs h = All-take P n xs h
  All-limited (some (negsuc n)) xs h = All-take P (length xs - suc n) xs h

module _ (P : String → DeliveryItem → Type 0) (p : IsKept P) where
  All-ready_values :
      (d : Dict String DeliveryItem) (now : ℕ)
      → Each P d
      → All (Waiting P) (keep (λ r. is_ready r now) (values d))
  unfolding keep is_ready
  All-ready_values [] now h = tt
  All-ready_values ((k, r) ∷ d) now h = elim (Bool-cases (is_ready r now)) [
    | inl b ↦ rw b (
      (subst (λ i. P i r) (sym (p.own_id k r h.0)) h.0, ground arith),
      All-ready_values d now h.1,
    )
    | inr b ↦ rw b (All-ready_values d now h.1)
  ]

  All-ready :
      (q : DeliveryQueue) (now : ℕ) (limit : Option ℤ)
      → Each P q.items
      → All (Waiting P) (ready q now limit)
  unfolding ready
  All-ready q now limit h =
      All-limited (Waiting P) limit (sort (keep (λ r. is_ready r now) (values q.items))) (
        All-sort (Waiting P) (keep (λ r. is_ready r now) (values q.items))
          (All-ready_values q.items now h))

  Each-write :
      (q : DeliveryQueue) (r : DeliveryItem) → Each P q.items → P r.id r → Each P (write q r).items
  unfolding write
  Each-write q r h pr = Each-put P r.id r q.items h pr

  retry-keeps :
      (k : String) (r : DeliveryItem) (reason : String) (now : ℕ)
      → P k r
      → terminal r ≡ false
      → P k (schedule_retry r reason now)
  unfolding schedule_retry
  retry-keeps k r reason now h l = elim (Bool-cases (leb r.policy.max_attempts r.attempts)) [
    | inl b ↦ rw b (p.on_move k r _ h (gives_up reason now l (leb→le _ _ b)))
    | inr b ↦ rw b (p.on_move k r _ h (waits reason now l (ground arith)))
  ]

  swept-keeps :
      (k : String) (r r' : DeliveryItem) (now : ℕ) → P k r → swept r now ≡ some r' → P k r'
  unfolding swept has_expired
  swept-keeps k r r' now h e = elim (Bool-cases (terminal r)) [
    | inl b ↦ cc (rw b at e)
    | inr l ↦ elim (Bool-cases (leb r.expires_at now)) [
      | inl over ↦
          let x : some (mark_expired r "delivery ttl expired" now) ≡ some r' = rw (l, over) at e in
          subst (P k) (some-injective _ r' x)
            (p.on_move k r _ h (lapses "delivery ttl expired" now l (leb→le _ _ over)))
      | inr live ↦ elim (Bool-cases (ack_timed_out r now)) [
        | inl late ↦
            let x : some (schedule_retry r "ack timeout" now) ≡ some r' = rw (l, live, late) at e in
            subst (P k) (some-injective _ r' x) (retry-keeps k r "ack timeout" now h l)
        | inr early ↦ cc (rw (l, live, early) at e)
      ]
    ]
  ]

  Each-sweep_items :
      (d : Dict String DeliveryItem) (now : ℕ) → Each P d → Each P (sweep_items d now).0
  unfolding sweep_items
  Each-sweep_items [] now h = tt
  Each-sweep_items ((k, r) ∷ d) now h = elim (Option-cases (swept r now)) [
    | inl e ↦ rw (e, sweep_items) (h.0, Each-sweep_items d now h.1)
    | inr (r', e) ↦ rw (e, sweep_items) (swept-keeps k r r' now h.0 e, Each-sweep_items d now h.1)
  ]

  pub sweep-keeps :
      (q : DeliveryQueue) (now : ℕ) → Each P q.items → Each P (sweep_timeouts q now).0.items
  unfolding sweep_timeouts
  sweep-keeps q now h = Each-sweep_items q.items now h

  pub own_place : (k : String) (r : DeliveryItem) → P k r → P r.id r
  own_place k r h = subst (λ i. P i r) (sym (p.own_id k r h)) h

  move-place : (r r' : DeliveryItem) → P r.id r → Move r r' → P r'.id r'
  move-place r r' h m = own_place r.id r' (p.on_move r.id r r' h m)

  match-keeps :
      (q : DeliveryQueue) (cs : List (Option Value)) (r : DeliveryItem)
      → Each P q.items
      → match_candidates q cs ≡ some r
      → P r.id r
  unfolding match_candidates
  match-keeps q [] r h e = cc
  match-keeps q (c ∷ cs) r h e = elim (Option-cases (as_name c)) [
    | inl n ↦ match-keeps q cs r h (rw (n, match_candidates) at e)
    | inr (name, n) ↦ elim (Option-cases (get name q.items)) [
      | inr (x, g) ↦
          own_place name r (Each-get P name r q.items h (g ∙ rw (n, g, match_candidates) at e))
      | inl g ↦ elim (Option-cases (get name q.by_envelope)) [
        | inl b ↦ match-keeps q cs r h (rw (n, g, b, match_candidates) at e)
        | inr (id, b) ↦
            own_place id r (Each-get P id r q.items h (rw (n, g, b, match_candidates) at e))
      ]
    ]
  ]

  ack_item-keeps :
      (q : DeliveryQueue) (r : DeliveryItem) (node_id session_id : Option String) (now : ℕ)
      → Each P q.items
      → P r.id r
      → Each P (ack_item q r node_id session_id now).0.items
  unfolding ack_item
  ack_item-keeps q r node_id session_id now h pr =
      let done : terminal r ≡ false → Each P (write q (mark_acked r "ack received" now)).items =
        λ l.
          Each-write q (mark_acked r "ack received" now) h
            (move-place r _ pr (completes "ack received" now l)) in
      ground (arith, done)

  acknowledge-keeps :
      (q : DeliveryQueue) (payload : Fields) (node_id session_id : Option String) (now : ℕ)
      → Each P q.items
      → Each P (acknowledge q payload node_id session_id now).0.items
  unfolding acknowledge match_ack
  acknowledge-keeps q payload node_id session_id now h =
      elim (Option-cases (match_candidates q (candidates payload))) [
        | inl e ↦ rw (e, acknowledge) h
        | inr (r, e) ↦
            rw (e, acknowledge)
              (ack_item-keeps q r node_id session_id now h
                (match-keeps q (candidates payload) r h e))
      ]

  cancel-keeps :
      (q : DeliveryQueue) (id reason : String) (now : ℕ)
      → Each P q.items
      → Each P (cancel q id reason now).0.items
  unfolding cancel require cancel_item
  cancel-keeps q id reason now h = elim (Option-cases (get id q.items)) [
    | inl e ↦ rw (e, cancel) h
    | inr (r, e) ↦ elim (Bool-cases (terminal r)) [
      | inl b ↦ rw (e, b, cancel) h
      | inr l ↦
          let pr = own_place id r (Each-get P id r q.items h e) in
          rw (e, l, cancel)
            (Each-write q (mark_cancelled r reason now) h (move-place r _ pr (stops reason now l)))
    ]
  ]

  register-keeps :
      (q : DeliveryQueue) (r : DeliveryItem) (envelope : String) (now : ℕ)
      → Each P q.items
      → Waiting P r
      → Each P (register_dispatch q r envelope now).0.items
  unfolding register_dispatch
  register-keeps q r envelope now h w = elim (Bool-cases (is_some (get r.id q.items))) [
    | inr b ↦ rw (b, register_dispatch) h
    | inl b ↦
        rw (b, register_dispatch)
          (Each-write q (mark_dispatched r envelope now) h
            (move-place r _ w.0 (sends envelope now w.1)))
  ]

  -- the item that an order makes satisfies `P`
  enqueue-keeps :
      (q : DeliveryQueue) (o : Order) (id : String) (now : ℕ)
      → ((r : DeliveryItem)
          → new_item o (or_else o.policy q.default_policy) id now ≡ ok r
          → P r.id r)
      → Each P q.items
      → Each P (enqueue_action q o id now).0.items
  unfolding enqueue_action
  enqueue-keeps q o id now made h =
      elim (Result-cases (new_item o (or_else o.policy q.default_policy) id now)) [
        | inl (x, e) ↦ rw (e, enqueue_action) h
        | inr (r, e) ↦ rw (e, enqueue_action) (Each-write q r h (made r e))
      ]

  not_terminal : (r : DeliveryItem) → is_waiting r.status ≡ true → terminal r ≡ false
  unfolding terminal is_terminal
  not_terminal r w = ground arith

  module _ {G : Type 0} where
    after_build-keeps :
        (s : DeliveryService G) (r : DeliveryItem) (now : ℕ) (answer : G × Result BuildError String)
        → Holds P s
        → Waiting P r
        → Holds P (after_build s r now answer).0
    unfolding after_build
    after_build-keeps s r now (gateway, raise (channel_error e)) h w = h
    after_build-keeps s r now (gateway, raise (gateway_error reason)) h w =
        Each-write s.queue (schedule_retry r reason now) h
          (own_place r.id _ (retry-keeps r.id r reason now w.0 (not_terminal r w.1)))
    after_build-keeps s r now (gateway, ok envelope) h w =
        elim (Result-cases (register_dispatch s.queue r envelope now).1) [
          | inl (x, e) ↦ rw (e, after_build) (register-keeps s.queue r envelope now h w)
          | inr (x, e) ↦ rw (e, after_build) (register-keeps s.queue r envelope now h w)
        ]

    module _ {R : Type 0} (g : Gateway G R) where
      dispatch_items-keeps :
          (s : DeliveryService G) (rs : List DeliveryItem) (now : ℕ)
          → Holds P s
          → All (Waiting P) rs
          → Holds P (dispatch_items g s rs now).0
      unfolding dispatch_items dispatch_item
      dispatch_items-keeps s [] now h w = h
      dispatch_items-keeps s (r ∷ rs) now h w =
          let next = dispatch_item g s r now in
          let kept : Holds P next.0 =
            after_build-keeps s r now (g.build_action s.gateway r now) h w.0 in
          let rest = dispatch_items-keeps next.0 rs now kept w.1 in
          elim (Result-cases next.1) [
            | inl (x, e) ↦ rw (e, dispatch_items) kept
            | inr (x, e) ↦ elim (Result-cases (dispatch_items g next.0 rs now).1) [
              | inl (y, e') ↦ rw (e, e', dispatch_items) rest
              | inr (y, e') ↦ rw (e, e', dispatch_items) rest
            ]
          ]

      receipt-keeps :
          (s : DeliveryService G) (receipt : GatewayReceipt R) (now : ℕ)
          → Holds P s
          → Holds P (record_gateway_receipt g s receipt now).0
      unfolding record_gateway_receipt
      receipt-keeps s receipt now h =
          let done =
            acknowledge-keeps s.queue (payload_of receipt.result) (some receipt.node_id)
              receipt.session_id now h in
          elim (Bool-cases
            (not (is_recorded receipt.status) || not (purpose_beq receipt.purpose ack))) [
              | inl b ↦ rw (b, record_gateway_receipt) h
              | inr b ↦
                  elim (Bool-cases (not (direction_beq receipt.direction node_to_controller))) [
                    | inl d ↦ rw (b, d, record_gateway_receipt) h
                    | inr d ↦ rw (b, d, record_gateway_receipt) done
                  ]
            ]

      receive-keeps :
          (s : DeliveryService G) (e : SignedChannelEnvelope Fields) (now : ℕ)
          → Holds P s
          → Holds P (receive_ack_envelope g s e now).0
      unfolding receive_ack_envelope
      receive-keeps s e now h =
          elim (Bool-cases (
            not (direction_beq e.direction node_to_controller)
            || not (purpose_beq e.purpose ack))) [
              | inl b ↦ rw (b, receive_ack_envelope) h
              | inr b ↦ elim (Result-cases (g.receive s.gateway e now).1) [
                | inl (x, r) ↦ rw (b, r, receive_ack_envelope) h
                | inr (x, r) ↦
                    rw (b, r, receive_ack_envelope)
                      (receipt-keeps (record s { gateway = (g.receive s.gateway e now).0 }) x now h)
              ]
            ]

-- The item that the call makes satisfies `P`.
abbrev pub Makes : {R : Type 0} → (String → DeliveryItem → Type 0) → Call R → Type 0
Makes P (enqueues o id now) =
    (policy : DeliveryPolicy) (r : DeliveryItem) → new_item o policy id now ≡ ok r → P r.id r
Makes P _ = Unit

module _ (P : String → DeliveryItem → Type 0) (p : IsKept P) {G R : Type 0} (g : Gateway G R) where
  Holds-step : (s : DeliveryService G) (c : Call R) → Makes P c → Holds P s → Holds P (step g s c)
  unfolding step enqueue dispatch_ready
  Holds-step s (enqueues o id now) made h =
      enqueue-keeps P p s.queue o id now (made (or_else o.policy s.queue.default_policy)) h
  Holds-step s (dispatches now limit) made h =
      let q = (sweep_timeouts s.queue now).0 in
      let swept = sweep-keeps P p s.queue now h in
      dispatch_items-keeps P p g (record s { queue = q }) (ready q now limit) now swept
        (All-ready P p q now limit swept)
  Holds-step s (receipts receipt now) made h = receipt-keeps P p g s receipt now h
  Holds-step s (receives e now) made h = receive-keeps P p g s e now h
  Holds-step s (sweeps now) made h = sweep-keeps P p s.queue now h
  Holds-step s (acknowledges payload node_id session_id now) made h =
      acknowledge-keeps P p s.queue payload node_id session_id now h
  Holds-step s (cancels id reason now) made h = cancel-keeps P p s.queue id reason now h

  pub Holds-run :
      (s : DeliveryService G) (cs : List (Call R))
      → All (Makes P) cs
      → Holds P s
      → Holds P (run g s cs)
  unfolding run
  Holds-run s [] made h = h
  Holds-run s (c ∷ cs) made h = Holds-run (step g s c) cs made.1 (Holds-step s c made.0 h)
