-- ===== src/Delivery/Audit.antt =====
-- node_delivery.py: the bookkeeping of each item against its history.
use mathlib.Core.Path.{subst}
use cyber_hive.Prelude.{
  if◌then◌else◌, is_some, string_eq, nat_eq, All, ℕ, ◌+◌, ◌≤◌, ◌<◌, String, ◌≡◌, refl, sym, ap, ◌∙◌,
  ◌↔◌, true, false, List, [], ◌∷◌, ◌++◌, arith,
}
use cyber_hive.Delivery.Changes.{
  recorded, mark_dispatched, mark_acked, mark_expired, mark_dead_letter, wait_for_retry,
  mark_cancelled, Order, item_of,
}
use cyber_hive.Delivery.Moves.{SameOrder, Move-SameOrder}
use cyber_hive.Delivery.Item.{
  DeliveryStatus, queued, acked, DeliveryPriority, DeliveryPolicy, DeliveryHistoryEvent,
  DeliveryItem, is_terminal, terminal, is_waiting, is_dispatched,
}
use cyber_hive.Delivery.Lifecycle.{Move, sends, waits, gives_up, completes, lapses, stops}
use cyber_hive.Delivery.Keeps.{IsKept, Holds, Makes, Holds-run}
use cyber_hive.Delivery.Service.{
  Gateway, DeliveryService, Call, enqueues, dispatches, receipts, receives, sweeps, acknowledges,
  cancels, run,
}
use cyber_hive.Delivery.Stages.{new_item-id}

-- how many events of the history are dispatches
abbrev pub dispatches_in : List DeliveryHistoryEvent → ℕ
dispatches_in [] = 0
dispatches_in (e ∷ es) = (if is_dispatched e.status then 1 else 0) + dispatches_in es

-- the status of the last event
abbrev pub last_status : DeliveryStatus → List DeliveryHistoryEvent → DeliveryStatus
last_status s [] = s
last_status s (e ∷ es) = last_status e.status es

dispatches_in-sent :
    (es : List DeliveryHistoryEvent) (e : DeliveryHistoryEvent)
    → is_dispatched e.status ≡ true
    → dispatches_in (es ++ e ∷ []) ≡ dispatches_in es + 1
dispatches_in-sent [] e h = ground arith
dispatches_in-sent (x ∷ es) e h = ground (arith, dispatches_in-sent es e h)

dispatches_in-other :
    (es : List DeliveryHistoryEvent) (e : DeliveryHistoryEvent)
    → is_dispatched e.status ≡ false
    → dispatches_in (es ++ e ∷ []) ≡ dispatches_in es
dispatches_in-other [] e h = ground arith
dispatches_in-other (x ∷ es) e h = ground (arith, dispatches_in-other es e h)

last_status-append :
    (s : DeliveryStatus) (xs : List DeliveryHistoryEvent) (e : DeliveryHistoryEvent)
    → last_status s (xs ++ e ∷ []) ≡ e.status
last_status-append s [] e = refl
last_status-append s (x ∷ xs) e = last_status-append x.status xs e

-- The item stands under its id; its attempts are the dispatches in its history, and at most as many as
-- its policy allows, with one left while it waits; its status is that of the last event; it has the
-- instant of an acknowledgement exactly if it was acknowledged.
pub record IsSound (k : String) (r : DeliveryItem) : Type 0 where
  pub own_id : r.id ≡ k
  pub counted : dispatches_in r.history ≡ r.attempts
  pub within : 1 ≤ r.policy.max_attempts → r.attempts ≤ r.policy.max_attempts
  pub spare :
      1 ≤ r.policy.max_attempts → is_waiting r.status ≡ true → r.attempts < r.policy.max_attempts
  pub latest : last_status queued r.history ≡ r.status
  pub acknowledged : r.status ≡ acked ↔ is_some r.acknowledged_at ≡ true

-- a change that adds one event, which is no dispatch, and counts no attempt
settled-IsSound :
    (k : String) (r r' : DeliveryItem) (e : DeliveryHistoryEvent)
    → IsSound k r
    → SameOrder r r'
    → r'.attempts ≡ r.attempts
    → r'.history ≡ r.history ++ e ∷ []
    → e.status ≡ r'.status
    → is_dispatched e.status ≡ false
    → (is_waiting r'.status ≡ true → r.attempts < r.policy.max_attempts)
    → (r'.status ≡ acked ↔ is_some r'.acknowledged_at ≡ true)
    → IsSound k r'
settled-IsSound k r r' e h same attempts history status other spare done = record {
  own_id = same.same_id ∙ h.own_id;
  counted =
      ap dispatches_in history ∙ dispatches_in-other r.history e other ∙ h.counted ∙ sym attempts;
  within = λ p. rw (attempts, same.same_policy) (h.within (rw same.same_policy at p));
  spare = λ p w. rw (attempts, same.same_policy) (spare w);
  latest = ap (last_status queued) history ∙ last_status-append queued r.history e ∙ status;
  acknowledged = done;
}

Move-IsSound : (k : String) (r r' : DeliveryItem) → IsSound k r → Move r r' → IsSound k r'
unfolding mark_dispatched wait_for_retry mark_dead_letter mark_acked mark_expired mark_cancelled
    terminal is_terminal recorded
Move-IsSound k r r' h (sends envelope now w) = record {
  own_id = h.own_id;
  counted = dispatches_in-sent r.history _ refl ∙ ap (λ n. n + 1) h.counted;
  within = λ p. ground (arith, h.within, h.spare);
  spare = λ p w'. ground (arith, h.within, h.spare);
  latest = last_status-append queued r.history _;
  acknowledged = ground (arith, h.acknowledged);
}
Move-IsSound k r r' h (waits reason now l m) =
    settled-IsSound k r r' _ h (Move-SameOrder (waits reason now l m)) refl refl refl refl (λ w. m)
      (ground (arith, h.acknowledged))
Move-IsSound k r r' h (gives_up reason now l m) =
    settled-IsSound k r r' _ h (Move-SameOrder (gives_up reason now l m)) refl refl refl refl
      (λ w. cc) (ground (arith, h.acknowledged))
Move-IsSound k r r' h (completes reason now l) =
    settled-IsSound k r r' _ h (Move-SameOrder (completes reason now l)) refl refl refl refl
      (λ w. cc) (ground (arith, h.acknowledged))
Move-IsSound k r r' h (lapses reason now l e) =
    settled-IsSound k r r' _ h (Move-SameOrder (lapses reason now l e)) refl refl refl refl
      (λ w. cc) (ground (arith, h.acknowledged))
Move-IsSound k r r' h (stops reason now l) =
    settled-IsSound k r r' _ h (Move-SameOrder (stops reason now l)) refl refl refl refl (λ w. cc)
      (ground (arith, h.acknowledged))

IsSound-IsKept : IsKept IsSound
IsSound-IsKept = record { own_id = λ k r h. h.own_id; on_move = Move-IsSound }

pub item_of-IsSound :
    (o : Order) (policy : DeliveryPolicy) (priority : DeliveryPriority) (id : String) (now : ℕ)
    → IsSound id (item_of o policy priority id now)
unfolding item_of
item_of-IsSound o policy priority id now = record {
  own_id = refl;
  counted = refl;
  within = λ m. omega arith;
  spare = λ m w. omega arith;
  latest = refl;
  acknowledged = ground arith;
}

IsSound-made : {R : Type 0} (c : Call R) → Makes IsSound c
unfolding item_of
IsSound-made (enqueues o id now) = λ policy r e.
    let made = new_item-id o policy id now r e in
    subst (λ x. IsSound x.id x) (sym made.1) (item_of-IsSound o policy made.0 id now)
IsSound-made (dispatches now limit) = tt
IsSound-made (receipts receipt now) = tt
IsSound-made (receives e now) = tt
IsSound-made (sweeps now) = tt
IsSound-made (acknowledges payload node_id session_id now) = tt
IsSound-made (cancels id reason now) = tt

All-IsSound-made : {R : Type 0} (cs : List (Call R)) → All (Makes IsSound) cs
All-IsSound-made [] = tt
All-IsSound-made (c ∷ cs) = (IsSound-made c, All-IsSound-made cs)

-- If every item is sound, then whatever the gateway answers, every item is after any calls: it stands
-- under its id, its attempts are the dispatches in its history and at most as many as its policy allows
-- (where that is 1 or more, with one left while it waits), its status is that of the last event, and it
-- has the instant of an acknowledgement exactly if it was acknowledged.
pub run-IsSound :
    {G R : Type 0} (g : Gateway G R) (s : DeliveryService G) (cs : List (Call R))
    → Holds IsSound s
    → Holds IsSound (run g s cs)
run-IsSound g s cs h = Holds-run IsSound IsSound-IsKept g s cs (All-IsSound-made cs) h
