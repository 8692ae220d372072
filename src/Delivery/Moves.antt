-- ===== src/Delivery/Moves.antt =====
-- node_delivery.py: what any number of changes of an item leaves as it was.
use mathlib.Core.Path.{subst}
use mathlib.Core.List.{append-nil, append_assoc}
use cyber_hive.Prelude.{
  string_eq, nat_eq, ℕ, String, ◌≡◌, refl, sym, ap, ◌∙◌, true, false, Option, List, [], ◌++◌, arith,
}
use cyber_hive.Delivery.Changes.{
  recorded, mark_dispatched, mark_acked, mark_expired, mark_dead_letter, wait_for_retry,
  mark_cancelled,
}
use cyber_hive.Delivery.Item.{
  DeliveryStatus, DeliveryHistoryEvent, DeliveryItem, is_terminal, terminal,
}
use cyber_hive.Delivery.Lifecycle.{
  Move, sends, waits, gives_up, completes, lapses, stops, Advance, Reaches, here, then, stage,
  Move-Advance,
}

pub data Moves (r : DeliveryItem) : DeliveryItem → Type 0 where
  stays : Moves r r
  goes_on : {t u : DeliveryItem} → Moves r t → Move t u → Moves r u

-- What was ordered, and what it was promised, is the same in both.
pub record SameOrder (r r' : DeliveryItem) : Type 0 where
  pub same_id : r'.id ≡ r.id
  pub same_node : r'.node_id ≡ r.node_id
  pub same_session : r'.session_id ≡ r.session_id
  pub same_action : r'.action ≡ r.action
  pub same_payload : r'.payload ≡ r.payload
  pub same_mode : r'.dry_run ≡ r.dry_run
  pub same_tokens : r'.approval_tokens ≡ r.approval_tokens
  pub same_policy : r'.policy ≡ r.policy
  pub same_expiry : r'.expires_at ≡ r.expires_at
  pub same_priority : r'.priority ≡ r.priority
  pub same_requester : r'.requested_by ≡ r.requested_by
  pub same_creation : r'.created_at ≡ r.created_at
  pub same_metadata : r'.metadata ≡ r.metadata

updated-SameOrder :
    (r : DeliveryItem) (status : DeliveryStatus) (attempts not_before : ℕ)
    (last_attempt_at acknowledged_at : Option ℕ) (last_envelope_id last_error : Option String)
    (history : List DeliveryHistoryEvent)
    → SameOrder r (record r {
      status = status;
      attempts = attempts;
      not_before = not_before;
      last_attempt_at = last_attempt_at;
      acknowledged_at = acknowledged_at;
      last_envelope_id = last_envelope_id;
      last_error = last_error;
      history = history;
    })
updated-SameOrder r _ _ _ _ _ _ _ _ = record {
  same_id = refl;
  same_node = refl;
  same_session = refl;
  same_action = refl;
  same_payload = refl;
  same_mode = refl;
  same_tokens = refl;
  same_policy = refl;
  same_expiry = refl;
  same_priority = refl;
  same_requester = refl;
  same_creation = refl;
  same_metadata = refl;
}

pub SameOrder-refl : (r : DeliveryItem) → SameOrder r r
SameOrder-refl r = updated-SameOrder r _ _ _ _ _ _ _ _

pub Move-SameOrder : {r r' : DeliveryItem} → Move r r' → SameOrder r r'
unfolding mark_dispatched wait_for_retry mark_dead_letter mark_acked mark_expired mark_cancelled
Move-SameOrder {r = r} (sends envelope now w) = updated-SameOrder r _ _ _ _ _ _ _ _
Move-SameOrder {r = r} (waits reason now l m) = updated-SameOrder r _ _ _ _ _ _ _ _
Move-SameOrder {r = r} (gives_up reason now l m) = updated-SameOrder r _ _ _ _ _ _ _ _
Move-SameOrder {r = r} (completes reason now l) = updated-SameOrder r _ _ _ _ _ _ _ _
Move-SameOrder {r = r} (lapses reason now l e) = updated-SameOrder r _ _ _ _ _ _ _ _
Move-SameOrder {r = r} (stops reason now l) = updated-SameOrder r _ _ _ _ _ _ _ _

SameOrder-trans : (r t u : DeliveryItem) → SameOrder r t → SameOrder t u → SameOrder r u
SameOrder-trans r t u a b = record {
  same_id = b.same_id ∙ a.same_id;
  same_node = b.same_node ∙ a.same_node;
  same_session = b.same_session ∙ a.same_session;
  same_action = b.same_action ∙ a.same_action;
  same_payload = b.same_payload ∙ a.same_payload;
  same_mode = b.same_mode ∙ a.same_mode;
  same_tokens = b.same_tokens ∙ a.same_tokens;
  same_policy = b.same_policy ∙ a.same_policy;
  same_expiry = b.same_expiry ∙ a.same_expiry;
  same_priority = b.same_priority ∙ a.same_priority;
  same_requester = b.same_requester ∙ a.same_requester;
  same_creation = b.same_creation ∙ a.same_creation;
  same_metadata = b.same_metadata ∙ a.same_metadata;
}

pub Moves-SameOrder : {r r' : DeliveryItem} → Moves r r' → SameOrder r r'
Moves-SameOrder {r = r} stays = SameOrder-refl r
Moves-SameOrder {r = r} {r' = u} (goes_on {t = t} m n) =
    SameOrder-trans r t u (Moves-SameOrder m) (Move-SameOrder n)

pub Moves-Reaches :
    {r r' : DeliveryItem} → Moves r r' → Reaches r.policy.max_attempts (stage r) (stage r')
Moves-Reaches stays = here
Moves-Reaches {r = r} {r' = u} (goes_on {t = t} m n) = then (Moves-Reaches m) (
    subst (λ p. Advance p.max_attempts (stage t) (stage u)) (Moves-SameOrder m).same_policy
      (Move-Advance n))

-- the events that are added
abbrev pub Extends : DeliveryItem → DeliveryItem → Type 0
Extends r r' = (later : List DeliveryHistoryEvent) × (r'.history ≡ r.history ++ later)

Move-Extends : {r r' : DeliveryItem} → Move r r' → Extends r r'
unfolding mark_dispatched wait_for_retry mark_dead_letter mark_acked mark_expired mark_cancelled
    recorded
Move-Extends (sends envelope now w) = (_, refl)
Move-Extends (waits reason now l m) = (_, refl)
Move-Extends (gives_up reason now l m) = (_, refl)
Move-Extends (completes reason now l) = (_, refl)
Move-Extends (lapses reason now l e) = (_, refl)
Move-Extends (stops reason now l) = (_, refl)

pub Moves-Extends : {r r' : DeliveryItem} → Moves r r' → Extends r r'
Moves-Extends {r = r} stays = ([], sym (append-nil r.history))
Moves-Extends {r = r} (goes_on m n) =
    let a = Moves-Extends m in
    let b = Move-Extends n in
    (a.0 ++ b.0, b.1 ∙ ap (λ xs. xs ++ b.0) a.1 ∙ append_assoc r.history a.0 b.0)

Move-live : {r r' : DeliveryItem} → Move r r' → terminal r ≡ false
unfolding terminal is_terminal
Move-live (sends envelope now w) = ground arith
Move-live (waits reason now l m) = l
Move-live (gives_up reason now l m) = l
Move-live (completes reason now l) = l
Move-live (lapses reason now l e) = l
Move-live (stops reason now l) = l

pub Moves-terminal : {r r' : DeliveryItem} → terminal r ≡ true → Moves r r' → r' ≡ r
Moves-terminal h stays = refl
Moves-terminal {r = r} h (goes_on {t = t} m n) =
    let same = Moves-terminal h m in cc (Move-live n, h, ap (λ x. terminal x) same)
