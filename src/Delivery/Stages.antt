-- ===== src/Delivery/Stages.antt =====
-- node_delivery.py: over any calls each item goes through the abstract life cycle.
use mathlib.Core.Path.{subst}
use cyber_hive.Prelude.{
  Option-cases, is_some, string_eq, nat_eq, ◌==◌, All, ok, Result-cases, ℕ, String, ◌≡◌, refl, sym,
  ap, ◌∙◌, inl, inr, true, false, some, List, [], ◌∷◌, arith,
}
use cyber_hive.Prelude.Dict.{get, Each, Each-get, Each-map, Each-both, Distinct, Each-only}
use cyber_hive.Delivery.Changes.{Order, item_of, new_item}
use cyber_hive.Delivery.Item.{
  DeliveryPriority, coerce_priority, DeliveryPolicy, DeliveryItem, terminal,
}
use cyber_hive.Delivery.Service.{
  Gateway, DeliveryService, Call, enqueues, dispatches, receipts, receives, sweeps, acknowledges,
  cancels, run,
}
use cyber_hive.Delivery.Lifecycle.{Reaches, stage}
use cyber_hive.Delivery.Moves.{
  Moves, stays, goes_on, SameOrder, Move-SameOrder, Moves-SameOrder, Moves-Reaches, Extends,
  Moves-Extends, Moves-terminal,
}
use cyber_hive.Delivery.Keeps.{IsKept, Holds, Makes, Holds-run}
use cyber_hive.Delivery.Writes.{run-Stands}

-- The call makes no item under `id`.
abbrev pub Elsewhere : {R : Type 0} → String → Call R → Type 0
Elsewhere id (enqueues o i now) = (i == id) ≡ false
Elsewhere id _ = Unit

-- What stands under `id` comes from `r` by the changes of the life cycle.
abbrev From : String → DeliveryItem → String → DeliveryItem → Type 0
From id r k x = (x.id ≡ k) × (k ≡ id → Moves r x)

pub new_item-id :
    (o : Order) (policy : DeliveryPolicy) (id : String) (now : ℕ) (r : DeliveryItem)
    → new_item o policy id now ≡ ok r
    → (priority : DeliveryPriority) × (r ≡ item_of o policy priority id now)
unfolding new_item
new_item-id o policy id now r e = elim (Result-cases (coerce_priority o.priority)) [
  | inl (x, c) ↦ cc (rw (c, new_item) at e)
  | inr (priority, c) ↦ (priority, ground arith)
]

module _ (id : String) (r : DeliveryItem) where
  From-IsKept : IsKept (From id r)
  From-IsKept = record {
    own_id = λ k x h. h.0;
    on_move = λ k x x' h m. ((Move-SameOrder m).same_id ∙ h.0, λ e. goes_on (h.1 e) m);
  }

  From-made : {R : Type 0} (c : Call R) → Elsewhere id c → Makes (From id r) c
  unfolding item_of
  From-made (enqueues o i now) h = λ policy x e.
      let made = new_item-id o policy i now x e in
      (refl, λ same. cc (h, (string_eq.beq_iff i id).1 (sym (ap (λ y. y.id) made.1) ∙ same)))
  From-made (dispatches now limit) h = tt
  From-made (receipts receipt now) h = tt
  From-made (receives e now) h = tt
  From-made (sweeps now) h = tt
  From-made (acknowledges payload node_id session_id now) h = tt
  From-made (cancels i reason now) h = tt

  All-made : {R : Type 0} (cs : List (Call R)) → All (Elsewhere id) cs → All (Makes (From id r)) cs
  All-made [] h = tt
  All-made (c ∷ cs) h = (From-made c h.0, All-made cs h.1)

module _ {G R : Type 0} (g : Gateway G R) (s : DeliveryService G) (cs : List (Call R)) (id : String)
    (r : DeliveryItem) (distinct : Distinct s.queue.items) (own : Holds (λ k x. x.id ≡ k) s)
    (found : get id s.queue.items ≡ some r) (elsewhere : All (Elsewhere id) cs) where
  run-Moves : (r' : DeliveryItem) × (get id (run g s cs).queue.items ≡ some r') × Moves r r'
  run-Moves =
      let began : Each (λ k x. k ≡ id → Moves r x) s.queue.items =
        Each-map (λ k x. k ≡ id → x ≡ r) (λ k x. k ≡ id → Moves r x)
          (λ k x f e. subst (Moves r) (sym (f e)) stays) s.queue.items
          (Each-only id r s.queue.items distinct found) in
      let held = Each-both (λ k x. x.id ≡ k) (λ k x. k ≡ id → Moves r x) s.queue.items own began in
      let after =
        Holds-run (From id r) (From-IsKept id r) g s cs (All-made id r cs elsewhere) held in
      elim (Option-cases (get id (run g s cs).queue.items)) [
        | inl none_left ↦ cc (none_left, run-Stands g s cs id (ap (λ o. is_some o) found))
        | inr (r', e) ↦
            (r', e, (Each-get (From id r) id r' (run g s cs).queue.items after e).1 refl)
      ]

  -- The queue is a dictionary with distinct keys whose items stand under their own ids. Whatever the
  -- gateway answers: an item of it is, after any calls that make no item under the same id, still there;
  -- its status and attempts have gone a way of the abstract life cycle, what was ordered is unchanged, and
  -- its history only grew.
  pub run-Refines :
      (r' : DeliveryItem) × (get id (run g s cs).queue.items ≡ some r')
      × Reaches r.policy.max_attempts (stage r) (stage r')
      × SameOrder r r'
      × Extends r r'
  run-Refines =
      let (r', e, m) = run-Moves in (r', e, Moves-Reaches m, Moves-SameOrder m, Moves-Extends m)

  -- In such a queue an item that is acknowledged, expired, dead or cancelled is the same item after any
  -- calls that make none under its id: nothing sends it, retries it or settles it again.
  pub run-settled : terminal r ≡ true → get id (run g s cs).queue.items ≡ some r
  run-settled h = let (r', e, m) = run-Moves in e ∙ ap (λ x. some x) (Moves-terminal h m)
