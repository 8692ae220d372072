-- ===== src/Delivery/Dispatch.antt =====
-- node_delivery.py: what `dispatch_ready` answers.
use mathlib.Core.List.{append-nil, append_assoc}
use cyber_hive.Prelude.{
  Bool-cases, Option-cases, is_some, string_eq, nat_eq, keep, All, Result, ok, raise, ℕ, String,
  ◌≡◌, refl, sym, ap, ◌∙◌, ◌⊎◌, inl, inr, Bool, Option, none, List, [], ◌∷◌, ◌++◌, arith,
}
use cyber_hive.Prelude.Dict.{Dict, beq_refl, get, Each, Each-map, Distinct}
use cyber_hive.Channel.Envelope.{SecureChannelError, direction_eq, purpose_eq}
use cyber_hive.Delivery.Changes.{mark_dead_letter, wait_for_retry, schedule_retry}
use cyber_hive.Delivery.Item.{NodeDeliveryError, escaped, DeliveryItem, is_ready}
use cyber_hive.Delivery.Service.{
  BuildError, gateway_error, channel_error, Gateway, DispatchResult, is_sent, DeliveryService,
  failed_result, sent_result, after_build, dispatch_item, dispatch_items, dispatch_ready,
}
use cyber_hive.Delivery.Writes.{after_build-writes, Stands, Stands-put, Stands-sweep_items}
use cyber_hive.Delivery.Queue.{
  values, sort, ℤ, ready, register_dispatch, swept, sweep_items, sweep_timeouts,
}
use cyber_hive.Delivery.Moves.{Move-SameOrder}
use cyber_hive.Delivery.Keeps.{IsKept, Holds, All-sort, All-limited, sweep-keeps}

-- One result for each item, in their order, with an envelope exactly if it was sent.
abbrev pub Answers : List DispatchResult → List DeliveryItem → Type 0
Answers [] [] = Unit
Answers (x ∷ xs) (r ∷ rs) =
    (x.delivery_id ≡ r.id) × (is_sent x ≡ is_some x.envelope_id) × Answers xs rs
Answers _ _ = ⊥

abbrev Owned : Dict String DeliveryItem → DeliveryItem → Type 0
Owned d r = Stands r.id d

module _ {G : Type 0} where
  after_build-Owned :
      (s : DeliveryService G) (r : DeliveryItem) (now : ℕ) (answer : G × Result BuildError String)
      (rs : List DeliveryItem)
      → All (Owned s.queue.items) rs
      → All (Owned (after_build s r now answer).0.queue.items) rs
  after_build-Owned s r now answer [] h = tt
  after_build-Owned s r now answer (x ∷ xs) h = (
    after_build-writes (Stands x.id) (Stands-put x.id) (Stands-sweep_items x.id) s r now answer h.0,
    after_build-Owned s r now answer xs h.1,
  )

  -- The item is answered, and its result recorded; or the exception of the channel escapes.
  abbrev Answered :
      DeliveryService G
      → DeliveryItem
      → Result BuildError String
      → DeliveryService G × Result NodeDeliveryError DispatchResult
      → Type 0
  Answered s r answer reply =
      ((x : DispatchResult) × (reply.1 ≡ ok x)
        × (x.delivery_id ≡ r.id)
        × (is_sent x ≡ is_some x.envelope_id)
        × (reply.0.dispatch_results ≡ s.dispatch_results ++ x ∷ []))
      ⊎ ((e : SecureChannelError) × (answer ≡ raise (channel_error e))
          × (reply.1 ≡ raise (escaped e))
          × (reply.0.dispatch_results ≡ s.dispatch_results))

  after_build-Answered :
      (s : DeliveryService G) (r : DeliveryItem) (now : ℕ) (answer : G × Result BuildError String)
      → Owned s.queue.items r
      → Answered s r answer.1 (after_build s r now answer)
  unfolding after_build schedule_retry mark_dead_letter wait_for_retry failed_result sent_result
      register_dispatch is_sent
  after_build-Answered s r now (gateway, raise (channel_error e)) h = inr (e, refl, refl, refl)
  after_build-Answered s r now (gateway, raise (gateway_error reason)) h =
      inl
        (failed_result (schedule_retry r reason now) reason, refl, ground arith, ground arith, refl)
  after_build-Answered s r now (gateway, ok envelope) h = inl (
    sent_result r envelope,
    rw (h, after_build, register_dispatch) refl,
    refl,
    refl,
    rw (h, after_build, register_dispatch) refl,
  )

  module _ {R : Type 0} (g : Gateway G R) where
    -- The items up to one are answered; building the envelope of that one raised an exception of the
    -- channel, which is the exception of the call.
    abbrev pub Stopped :
        List DispatchResult
        → List DeliveryItem
        → ℕ
        → Result NodeDeliveryError (List DispatchResult)
        → Type 0
    Stopped xs rs now answer =
        (before rest : List DeliveryItem) × (r : DeliveryItem) × (gateway : G)
        × (e : SecureChannelError) × (rs ≡ before ++ r ∷ rest)
        × Answers xs before
        × ((g.build_action gateway r now).1 ≡ raise (channel_error e))
        × (answer ≡ raise (escaped e))

    -- The results of a call are recorded in their order, and either answer all items and are its answer,
    -- or the call has stopped at an item.
    abbrev pub Ends :
        DeliveryService G
        → List DeliveryItem
        → ℕ
        → DeliveryService G × Result NodeDeliveryError (List DispatchResult)
        → Type 0
    Ends s rs now reply =
        (xs : List DispatchResult) × (reply.0.dispatch_results ≡ s.dispatch_results ++ xs)
        × (((reply.1 ≡ ok xs) × Answers xs rs) ⊎ Stopped xs rs now reply.1)

    dispatch_items-Ends :
        (s : DeliveryService G) (rs : List DeliveryItem) (now : ℕ)
        → All (Owned s.queue.items) rs
        → Ends s rs now (dispatch_items g s rs now)
    unfolding dispatch_items dispatch_item
    dispatch_items-Ends s [] now h = ([], sym (append-nil s.dispatch_results), inl (refl, tt))
    dispatch_items-Ends s (r ∷ rs) now h =
        let answer = g.build_action s.gateway r now in
        let s' = (after_build s r now answer).0 in
        elim (after_build-Answered s r now answer h.0) [
          | inr (e, raised, out, same) ↦ (
            [],
            rw (out, dispatch_items) (same ∙ sym (append-nil s.dispatch_results)),
            inr ([], rs, r, s.gateway, e, refl, tt, raised, rw (out, dispatch_items) refl),
          )
          | inl (x, out, own, sent, added) ↦
              let (xs, grown, ends) =
                dispatch_items-Ends s' rs now (after_build-Owned s r now answer rs h.1) in
              let all : (dispatch_items g s' rs now).0.dispatch_results
                  ≡ s.dispatch_results ++ x ∷ xs =
                grown ∙ ap (λ l. l ++ xs) added ∙ append_assoc s.dispatch_results (x ∷ []) xs in
              elim ends [
                | inl (done, each) ↦ (
                  x ∷ xs,
                  rw (out, done, dispatch_items) all,
                  inl (rw (out, done, dispatch_items) refl, (own, sent, each)),
                )
                | inr (before, rest, r', gateway, e, split, each, raised, failed) ↦ (
                  x ∷ xs,
                  rw (out, failed, dispatch_items) all,
                  inr (
                    r ∷ before,
                    rest,
                    r',
                    gateway,
                    e,
                    ap (λ l. r ∷ l) split,
                    (own, sent, each),
                    raised,
                    rw (out, failed, dispatch_items) refl,
                  ),
                )
              ]
        ]

All-keep-values :
    (P : DeliveryItem → Type 0) (test : DeliveryItem → Bool) (d : Dict String DeliveryItem)
    → Each (λ k r. P r) d
    → All P (keep test (values d))
unfolding keep
All-keep-values P test [] h = tt
All-keep-values P test ((k, r) ∷ d) h = elim (Bool-cases (test r)) [
  | inl b ↦ rw b (h.0, All-keep-values P test d h.1)
  | inr b ↦ rw b (All-keep-values P test d h.1)
]

own_Stands :
    (d : Dict String DeliveryItem)
    → Distinct d
    → Each (λ k r. r.id ≡ k) d
    → Each (λ k r. Stands r.id d) d
unfolding get
own_Stands [] u h = tt
own_Stands ((k, r) ∷ d) u h = (
  ground (arith, h.0, beq_refl k),
  Each-map (λ j x. Stands x.id d) (λ j x. Stands x.id ((k, r) ∷ d)) (λ j x y. ground (arith, y)) d
      (own_Stands d u.1 h.1),
)

missing-sweep_items :
    (id : String) (d : Dict String DeliveryItem) (now : ℕ)
    → get id d ≡ none
    → get id (sweep_items d now).0 ≡ none
unfolding sweep_items get
missing-sweep_items id [] now h = h
missing-sweep_items id ((k, r) ∷ d) now h = ground (arith, missing-sweep_items id d now)

Distinct-sweep_items :
    (d : Dict String DeliveryItem) (now : ℕ) → Distinct d → Distinct (sweep_items d now).0
unfolding sweep_items
Distinct-sweep_items [] now u = tt
Distinct-sweep_items ((k, r) ∷ d) now u = elim (Option-cases (swept r now)) [
  | inl e ↦ rw (e, sweep_items) (missing-sweep_items k d now u.0, Distinct-sweep_items d now u.1)
  | inr (r', e) ↦
      rw (e, sweep_items) (missing-sweep_items k d now u.0, Distinct-sweep_items d now u.1)
]

own_id-IsKept : IsKept (λ k r. r.id ≡ k)
own_id-IsKept = record {
  own_id = λ k r h. h;
  on_move = λ k r r' h m. (Move-SameOrder m).same_id ∙ h;
}

-- Let the queue have distinct keys and its items stand under their own ids. Whatever the gateway answers,
-- `dispatch_ready` takes the items that are ready after the sweep in the order of `ready`, and records one
-- result for each, with an envelope exactly if it was sent. Either it returns the results of all of them;
-- or, in some state of the gateway, building the envelope of one item raised an exception of the channel:
-- this is the call's own exception, and the items before that one are answered and those after it are not.
pub dispatch_ready-Ends :
    {G R : Type 0} (g : Gateway G R) (s : DeliveryService G) (now : ℕ) (limit : Option ℤ)
    → Distinct s.queue.items
    → Holds (λ k r. r.id ≡ k) s
    → Ends g s (ready (sweep_timeouts s.queue now).0 now limit) now (dispatch_ready g s now limit)
unfolding dispatch_ready ready sweep_timeouts
dispatch_ready-Ends g s now limit distinct own =
    let q = (sweep_timeouts s.queue now).0 in
    let found = keep (λ r. is_ready r now) (values q.items) in
    let sorted = All-sort (Owned q.items) found (
      All-keep-values (Owned q.items) (λ r. is_ready r now) q.items
        (own_Stands q.items (Distinct-sweep_items s.queue.items now distinct)
          (sweep-keeps (λ k r. r.id ≡ k) own_id-IsKept s.queue now own))) in
    dispatch_items-Ends g (record s { queue = q }) (ready q now limit) now
      (All-limited (Owned q.items) limit (sort found) sorted)
