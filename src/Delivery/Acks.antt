-- ===== src/Delivery/Acks.antt =====
-- node_delivery.py: which acknowledgements complete a delivery, and what a call that raises leaves.
use mathlib.Core.Option.{some-injective}
use cyber_hive.Prelude.{
  if◌then◌else◌, Bool-cases, Option-cases, is_some, string_eq, nat_eq, ◌==◌, mem, ok, raise, is_ok,
  Result-cases, is_empty, ℕ, String, ◌≡◌, refl, ap, ◌∙◌, ◌⊎◌, inl, inr, true, false, Option, none,
  some, List, [], ◌∷◌, map, arith, eq_iff,
}
use cyber_hive.Plan.Metadata.{
  Value, null, text, number, scalar, mapping, sequence, Fields, get_field,
}
use cyber_hive.Delivery.Changes.{mark_dispatched, mark_acked, cancel_item, Order, or_else, new_item}
use cyber_hive.Delivery.Item.{NodeDeliveryError, DeliveryItem, is_terminal, terminal}
use cyber_hive.Delivery.Queue.{
  DeliveryQueue, write, enqueue_action, require, register_dispatch, candidates, as_name,
  match_candidates, match_ack, differs, ack_item, acknowledge, cancel,
}
use cyber_hive.Prelude.Dict.{beq_refl, get, get-put}

-- the fields by which an acknowledgement may name a delivery
abbrev pub ack_fields : List String
ack_fields = "delivery_id" ∷ "correlation_id" ∷ "ack_for" ∷ "envelope_id" ∷ []

-- The name is the id of the item, or that of an envelope in which it was dispatched.
abbrev pub Refers : DeliveryQueue → String → DeliveryItem → Type 0
Refers q name r =
    (get name q.items ≡ some r)
    ⊎ ((id : String) × (get name q.by_envelope ≡ some id) × (get id q.items ≡ some r))

-- One of the fields holds a text that is not empty and refers to the item.
abbrev pub Named : DeliveryQueue → Fields → List String → DeliveryItem → Type 0
Named q payload names r =
    (k : String) × (name : String) × (mem k names ≡ true)
    × (get_field k payload ≡ some (text name))
    × (is_empty name ≡ false)
    × Refers q name r

-- The acknowledgement names the item and comes from its node in its session.
pub record IsOwnAck (q : DeliveryQueue) (payload : Fields) (node_id session_id : Option String)
    (r : DeliveryItem) : Type 0 where
  pub names : match_ack q payload ≡ some r
  pub named : Named q payload ack_fields r
  pub from_node : (n : String) → node_id ≡ some n → n ≡ r.node_id
  pub in_session : session_id ≡ some r.session_id

as_name-text :
    (v : Option Value) (name : String)
    → as_name v ≡ some name
    → (v ≡ some (text name)) × (is_empty name ≡ false)
unfolding as_name
as_name-text none name e = cc
as_name-text (some null) name e = cc
as_name-text (some (number n)) name e = cc
as_name-text (some (scalar s)) name e = cc
as_name-text (some (mapping fields)) name e = cc
as_name-text (some (sequence items)) name e = cc
as_name-text (some (text s)) name e = elim (Bool-cases (is_empty s)) [
  | inl b ↦ cc (rw b at e)
  | inr b ↦
      let same = some-injective s name (rw b at e) in (ap (λ t. some (text t)) same, rw same at b)
]

Named-match :
    (q : DeliveryQueue) (payload : Fields) (names : List String) (r : DeliveryItem)
    → match_candidates q (map (λ k. get_field k payload) names) ≡ some r
    → Named q payload names r
unfolding match_candidates mem
Named-match q payload [] r e = cc
Named-match q payload (k ∷ ks) r e =
    let later : match_candidates q (map (λ j. get_field j payload) ks) ≡ some r
        → Named q payload (k ∷ ks) r =
      λ found.
        let (j, name, listed, given, filled, refers) = Named-match q payload ks r found in
        (j, name, ground arith, given, filled, refers) in
    elim (Option-cases (as_name (get_field k payload))) [
      | inl n ↦ later (rw (n, match_candidates) at e)
      | inr (name, n) ↦
          let (given, filled) = as_name-text (get_field k payload) name n in
          elim (Option-cases (get name q.items)) [
            | inr (r', found) ↦
                let same = some-injective r' r (rw (n, found, match_candidates) at e) in
                (k, name, rw (beq_refl k) refl, given, filled, inl (found ∙ ap (λ x. some x) same))
            | inl missing ↦ elim (Option-cases (get name q.by_envelope)) [
              | inl unsent ↦ later (rw (n, missing, unsent, match_candidates) at e)
              | inr (id, sent) ↦ (
                k,
                name,
                rw (beq_refl k) refl,
                given,
                filled,
                inr (id, sent, rw (n, missing, sent, match_candidates) at e),
              )
            ]
          ]
    ]

from_own :
    (o : Option String) (own : String) → differs o own ≡ false → (n : String) → o ≡ some n → n ≡ own
unfolding differs
from_own none own h n e = cc
from_own (some m) own h n e = ground (arith, eq_iff own m, some-injective m n e)

ack_item-own :
    (q : DeliveryQueue) (r : DeliveryItem) (node_id session_id : Option String) (now : ℕ)
    → is_ok (ack_item q r node_id session_id now).1 ≡ true
    → ((n : String) → node_id ≡ some n → n ≡ r.node_id) × (session_id ≡ some r.session_id)
unfolding ack_item differs
ack_item-own q r none none now h = ground arith
ack_item-own q r none (some t) now h = ground (arith, eq_iff r.session_id t)
ack_item-own q r (some m) none now h = ground arith
ack_item-own q r (some m) (some t) now h =
    ground (arith, eq_iff r.session_id t, from_own (some m) r.node_id)

ack_item-done :
    (q : DeliveryQueue) (r : DeliveryItem) (node_id session_id : Option String) (now : ℕ)
    → is_ok (ack_item q r node_id session_id now).1 ≡ true
    → ack_item q r node_id session_id now ≡ (
        if terminal r
        then (q, ok r)
        else (write q (mark_acked r "ack received" now), ok (mark_acked r "ack received" now)))
unfolding ack_item
ack_item-done q r node_id session_id now h = ground arith

-- If `acknowledge` answers an item, then the acknowledgement names a delivery of the queue, by its id or
-- that of an envelope in which it was sent, in one of the four fields for it, and comes from that
-- delivery's node, if it says a node, in its session. The delivery is answered as acknowledged now
-- and stored so, or, if it was settled before, answered as it is with the queue unchanged.
pub acknowledge-IsOwnAck :
    (q : DeliveryQueue) (payload : Fields) (node_id session_id : Option String) (now : ℕ)
    (r' : DeliveryItem)
    → (acknowledge q payload node_id session_id now).1 ≡ ok r'
    → (r : DeliveryItem) × IsOwnAck q payload node_id session_id r
      × (acknowledge q payload node_id session_id now ≡ (
          if terminal r
          then (q, ok r)
          else (write q (mark_acked r "ack received" now), ok (mark_acked r "ack received" now))))
unfolding acknowledge match_ack candidates
acknowledge-IsOwnAck q payload node_id session_id now r' h =
    elim (Option-cases (match_ack q payload)) [
      | inl e ↦ cc (rw (e, acknowledge) at h)
      | inr (r, e) ↦
          let answered : (ack_item q r node_id session_id now).1 ≡ ok r' =
            rw (e, acknowledge) at h in
          let own = ack_item-own q r node_id session_id now (ap (λ x. is_ok x) answered) in
          (
            r,
            record {
              names = e;
              named = Named-match q payload ack_fields r e;
              from_node = own.0;
              in_session = own.1;
            },
            rw (e, acknowledge)
                (ack_item-done q r node_id session_id now (ap (λ x. is_ok x) answered)),
          )
    ]

ack_item-raises :
    (q : DeliveryQueue) (r : DeliveryItem) (node_id session_id : Option String) (now : ℕ)
    (e : NodeDeliveryError)
    → (ack_item q r node_id session_id now).1 ≡ raise e
    → (ack_item q r node_id session_id now).0 ≡ q
unfolding ack_item
ack_item-raises q r node_id session_id now e h = ground arith

-- A call that raises leaves the queue as it was: an order that is refused, an acknowledgement that
-- matches no delivery or comes from another node or session, a cancellation of an unknown or settled
-- delivery, and the registration of an item that the queue does not own.
pub raises-unchanged :
    (q : DeliveryQueue) (e : NodeDeliveryError) (now : ℕ)
    → ((o : Order) (id : String)
        → (enqueue_action q o id now).1 ≡ raise e
        → (enqueue_action q o id now).0 ≡ q)
      × ((payload : Fields) (node_id session_id : Option String)
          → (acknowledge q payload node_id session_id now).1 ≡ raise e
          → (acknowledge q payload node_id session_id now).0 ≡ q)
      × ((id reason : String)
          → (cancel q id reason now).1 ≡ raise e
          → (cancel q id reason now).0 ≡ q)
      × ((r : DeliveryItem) (envelope : String)
          → (register_dispatch q r envelope now).1 ≡ raise e
          → (register_dispatch q r envelope now).0 ≡ q)
unfolding enqueue_action acknowledge cancel register_dispatch
raises-unchanged q e now = (
  (λ o id h. elim (Result-cases (new_item o (or_else o.policy q.default_policy) id now)) [
    | inl (x, f) ↦ rw (f, enqueue_action) refl
    | inr (x, f) ↦ cc (rw (f, enqueue_action) at h)
  ]),
  (λ payload node_id session_id h. elim (Option-cases (match_ack q payload)) [
    | inl f ↦ rw (f, acknowledge) refl
    | inr (r, f) ↦
        rw (f, acknowledge)
          (ack_item-raises q r node_id session_id now e (rw (f, acknowledge) at h))
  ]),
  (λ id reason h. elim (Result-cases (require q id)) [
    | inl (x, f) ↦ rw (f, cancel) refl
    | inr (r, f) ↦ elim (Result-cases (cancel_item r reason now)) [
      | inl (x, c) ↦ rw (f, c, cancel) refl
      | inr (x, c) ↦ cc (rw (f, c, cancel) at h)
    ]
  ]),
  (λ r envelope h. elim (Bool-cases (is_some (get r.id q.items))) [
    | inl b ↦ cc
    | inr b ↦ rw (b, register_dispatch) refl
  ]),
)

module _ (q : DeliveryQueue) (r : DeliveryItem) (envelope : String) (now : ℕ)
    (owned : is_some (get r.id q.items) ≡ true) where
  sent-get :
      (k : String)
      → get k (register_dispatch q r envelope now).0.items
        ≡ (if r.id == k then some (mark_dispatched r envelope now) else get k q.items)
  unfolding register_dispatch write mark_dispatched
  sent-get k =
      rw (owned, register_dispatch) (get-put r.id k (mark_dispatched r envelope now) q.items)

  sent-by_envelope : get envelope (register_dispatch q r envelope now).0.by_envelope ≡ some r.id
  unfolding register_dispatch write
  sent-by_envelope =
      rw (owned, register_dispatch)
        (get-put envelope envelope r.id q.by_envelope ∙ rw (beq_refl envelope) refl)

  sent-found :
      get r.id (register_dispatch q r envelope now).0.items ≡ some (mark_dispatched r envelope now)
  sent-found = sent-get r.id ∙ rw (beq_refl r.id) refl

  sent-fresh :
      (k : String)
      → get k q.items ≡ none
      → get k (register_dispatch q r envelope now).0.items ≡ none
  sent-fresh k fresh = elim (Bool-cases (r.id == k)) [
    | inl same ↦ let known = rw ((string_eq.beq_iff r.id k).0 same) at owned in cc (known, fresh)
    | inr other ↦ sent-get k ∙ rw other fresh
  ]

  match-sent :
      (payload : Fields)
      → is_empty envelope ≡ false
      → get envelope q.items ≡ none
      → get_field "delivery_id" payload ≡ none
      → get_field "correlation_id" payload ≡ none
      → get_field "ack_for" payload ≡ some (text envelope)
      → match_ack (register_dispatch q r envelope now).0 payload
        ≡ some (mark_dispatched r envelope now)
  unfolding match_ack candidates match_candidates as_name
  match-sent payload given fresh no_delivery no_correlation for =
      rw
        (
          no_delivery,
          no_correlation,
          for,
          match_candidates,
          given,
          sent-fresh envelope fresh,
          sent-by_envelope,
        )
        sent-found

  -- An item of the queue is dispatched in an envelope, whose id is not empty and no item's. An
  -- acknowledgement that gives this id as `ack_for`, with no delivery or correlation id, and comes from
  -- the item's node in its session, completes the item: the queue then holds it as acknowledged.
  pub acknowledge-register_dispatch :
      (payload : Fields) (later : ℕ)
      → is_empty envelope ≡ false
      → get envelope q.items ≡ none
      → get_field "delivery_id" payload ≡ none
      → get_field "correlation_id" payload ≡ none
      → get_field "ack_for" payload ≡ some (text envelope)
      → let done = mark_acked (mark_dispatched r envelope now) "ack received" later in
        acknowledge
          (register_dispatch q r envelope now).0
          payload
          (some r.node_id)
          (some r.session_id)
          later
        ≡ (write (register_dispatch q r envelope now).0 done, ok done)
  unfolding acknowledge ack_item differs terminal is_terminal mark_dispatched
  acknowledge-register_dispatch payload later given fresh no_delivery no_correlation for =
      let found = match-sent payload given fresh no_delivery no_correlation for in
      rw (found, acknowledge, beq_refl r.node_id, beq_refl r.session_id) refl
