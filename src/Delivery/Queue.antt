-- ===== src/Delivery/Queue.antt =====
-- node_delivery.py: ReliableDeliveryQueue. An item is an object that stands under its id.
use cyber_hive.Prelude.{
  ltb, nat_beq, str_ltb, if◌then◌else◌, is_some, string_eq, nat_eq, ◌==◌, length, keep, Result, ok,
  raise, is_empty, ℕ, zero, suc, ◌-◌, String, Bool, true, false, ◌&&◌, ◌||◌, not, Option, none,
  some, List, [], ◌∷◌,
}
use cyber_hive.Prelude.Dict.{Dict, get, put}
use cyber_hive.Plan.Metadata.{Value, text, Fields, get_field}
use cyber_hive.Delivery.Changes.{
  mark_dispatched, mark_acked, mark_expired, schedule_retry, cancel_item, Order, or_else, new_item,
}
use cyber_hive.Delivery.Item.{
  NodeDeliveryError, item_not_found, item_not_owned, ack_unknown, ack_wrong_node,
  ack_session_missing, ack_wrong_session, DeliveryStatus, dead_letter, priority_weight,
  DeliveryPolicy, delivery_policy, DeliveryItem, terminal, has_expired, is_ready, ack_timed_out,
}

pub record DeliveryQueue : Type 0 where
  pub default_policy : DeliveryPolicy
  pub items : Dict String DeliveryItem
  pub by_envelope : Dict String String

-- `ReliableDeliveryQueue.__init__`
unfoldable pub new_queue : Option DeliveryPolicy → DeliveryQueue
new_queue policy = record {
  default_policy = or_else policy delivery_policy;
  items = [];
  by_envelope = [];
}

abbrev pub Reply : Type 0
Reply = DeliveryQueue × Result NodeDeliveryError DeliveryItem

-- the object under `item.id` as it is now
unfoldable pub write : DeliveryQueue → DeliveryItem → DeliveryQueue
write q r = record q { items = put r.id r q.items }

unfoldable pub enqueue_action : DeliveryQueue → Order → String → ℕ → Reply
unfolding write
enqueue_action q o id now = elim (new_item o (or_else o.policy q.default_policy) id now) [
  | raise e ↦ (q, raise e)
  | ok r ↦ (write q r, ok r)
]

unfoldable pub require : DeliveryQueue → String → Result NodeDeliveryError DeliveryItem
require q id = elim (get id q.items) [ none ↦ raise item_not_found | some r ↦ ok r ]

abbrev pub values : Dict String DeliveryItem → List DeliveryItem
values [] = []
values ((k, r) ∷ d) = r ∷ values d

-- the order of the keys `(-weight, created_at, id)`
unfoldable pub comes_before : DeliveryItem → DeliveryItem → Bool
unfolding priority_weight
comes_before a b =
    let wa = priority_weight a.priority in
    let wb = priority_weight b.priority in
    ltb wb wa
    || (nat_beq wa wb
        && (ltb a.created_at b.created_at
            || (nat_beq a.created_at b.created_at && str_ltb a.id b.id)))

unfoldable pub insert : DeliveryItem → List DeliveryItem → List DeliveryItem
insert r [] = r ∷ []
insert r (x ∷ xs) = let rest = insert r xs in if comes_before x r then x ∷ rest else r ∷ x ∷ xs

-- the stable `sort`
unfoldable pub sort : List DeliveryItem → List DeliveryItem
unfolding insert
sort [] = []
sort (x ∷ xs) = insert x (sort xs)

unfoldable pub take : {A : Type 0} → ℕ → List A → List A
take n [] = []
take zero (x ∷ xs) = []
take (suc n) (x ∷ xs) = x ∷ take n xs

pub data ℤ : Type 0 where
  pos negsuc : ℕ → ℤ

-- `xs[:limit]` for a limit that may be None. A negative one, `negsuc n` for -(n + 1), counts from the end.
unfoldable pub limited : Option ℤ → List DeliveryItem → List DeliveryItem
limited none xs = xs
limited (some (pos n)) xs = take n xs
limited (some (negsuc n)) xs = take (length xs - suc n) xs

unfoldable pub ready : DeliveryQueue → ℕ → Option ℤ → List DeliveryItem
unfolding sort limited
ready q now limit = limited limit (sort (keep (λ r. is_ready r now) (values q.items)))

unfoldable pub pending : DeliveryQueue → List DeliveryItem
pending q = keep (λ r. not (terminal r)) (values q.items)

abbrev pub is_dead : DeliveryStatus → Bool
is_dead dead_letter = true
is_dead _ = false

unfoldable pub dead_letters : DeliveryQueue → List DeliveryItem
dead_letters q = keep (λ r. is_dead r.status) (values q.items)

unfoldable pub register_dispatch : DeliveryQueue → DeliveryItem → String → ℕ → Reply
unfolding write
register_dispatch q r envelope_id now =
    let sent = mark_dispatched r envelope_id now in
    if not (is_some (get r.id q.items))
    then (q, raise item_not_owned)
    else (record (write q sent) { by_envelope = put envelope_id r.id q.by_envelope }, ok sent)

-- the fields of an acknowledgement that may name a delivery
unfoldable pub candidates : Fields → List (Option Value)
candidates payload =
    get_field "delivery_id" payload
    ∷ get_field "correlation_id" payload
    ∷ get_field "ack_for" payload
    ∷ get_field "envelope_id" payload
    ∷ []

-- a text that is not empty
unfoldable pub as_name : Option Value → Option String
as_name (some (text s)) = if is_empty s then none else some s
as_name _ = none

unfoldable pub match_candidates : DeliveryQueue → List (Option Value) → Option DeliveryItem
match_candidates q [] = none
match_candidates q (c ∷ cs) =
    let rest = match_candidates q cs in
    elim (as_name c) [
      | none ↦ rest
      | some name ↦ elim (get name q.items) [
        | some r ↦ some r
        | none ↦ elim (get name q.by_envelope) [ none ↦ rest | some id ↦ get id q.items ]
      ]
    ]

unfoldable pub match_ack : DeliveryQueue → Fields → Option DeliveryItem
unfolding candidates match_candidates
match_ack q payload = match_candidates q (candidates payload)

-- `expected is not None and actual != expected`
unfoldable pub differs : Option String → String → Bool
differs none actual = false
differs (some expected) actual = not (actual == expected)

-- `mark_acked` once an item matches
unfoldable pub ack_item : DeliveryQueue → DeliveryItem → Option String → Option String → ℕ → Reply
unfolding write differs
ack_item q r node_id session_id now =
    let done = mark_acked r "ack received" now in
    if differs node_id r.node_id
    then (q, raise ack_wrong_node)
    else if not (is_some session_id)
    then (q, raise ack_session_missing)
    else if differs session_id r.session_id
    then (q, raise ack_wrong_session)
    else if terminal r
    then (q, ok r)
    else (write q done, ok done)

-- `ReliableDeliveryQueue.mark_acked`
unfoldable pub acknowledge : DeliveryQueue → Fields → Option String → Option String → ℕ → Reply
unfolding ack_item
acknowledge q payload node_id session_id now = elim (match_ack q payload) [
  | none ↦ (q, raise ack_unknown)
  | some r ↦ ack_item q r node_id session_id now
]

-- what a sweep makes of one item, if it changes it
unfoldable pub swept : DeliveryItem → ℕ → Option DeliveryItem
swept r now =
    if terminal r
    then none
    else if has_expired r now
    then some (mark_expired r "delivery ttl expired" now)
    else if ack_timed_out r now
    then some (schedule_retry r "ack timeout" now)
    else none

unfoldable pub sweep_items :
    Dict String DeliveryItem → ℕ → Dict String DeliveryItem × List DeliveryItem
unfolding swept
sweep_items [] now = ([], [])
sweep_items ((k, r) ∷ d) now =
    let (rest, changed) = sweep_items d now in
    elim (swept r now) [
      | none ↦ ((k, r) ∷ rest, changed)
      | some r' ↦ ((k, r') ∷ rest, r' ∷ changed)
    ]

unfoldable pub sweep_timeouts : DeliveryQueue → ℕ → DeliveryQueue × List DeliveryItem
unfolding sweep_items
sweep_timeouts q now =
    let (items, changed) = sweep_items q.items now in (record q { items = items }, changed)

unfoldable pub cancel : DeliveryQueue → String → String → ℕ → Reply
unfolding write require cancel_item
cancel q id reason now = elim (require q id) [
  | raise e ↦ (q, raise e)
  | ok r ↦ elim (cancel_item r reason now) [
    | raise e ↦ (q, raise e)
    | ok gone ↦ (write q gone, ok gone)
  ]
]
