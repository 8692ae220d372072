-- ===== src/Resource/Replies.antt =====
-- resource_guard.py: what `reserve` and `release` answer, and what they leave active.
use cyber_hive.Prelude.{
  if◌then◌else◌, Bool-cases, Option-cases, string_eq, nat_eq, ◌==◌, ok, raise, ℕ, String, ◌≡◌, refl,
  sym, ◌∙◌, ◌↔◌, inl, inr, Bool, true, false, Option, none, some, [], ◌∷◌, ◌++◌,
}
use cyber_hive.Prelude.Dict.{get, put, pop, pop-put_new, pop-missing}
use cyber_hive.Resource.Guard.{
  LocalResourceGuard, denial, request_or_default, refusal, grant, Reply, decide_reservation,
  reserve, finish_release, release,
}
use cyber_hive.Resource.{
  reservation_not_found, ResourceRequest, ResourceReservation, is_granted, is_active,
}
use cyber_hive.Resource.Bounds.{Fits, denial-Fits, Fits-denial}

-- `r` was answered, and it is granted exactly when the request fits.
abbrev pub Decides : LocalResourceGuard → ResourceRequest → Reply → Type 0
Decides g q reply = (r : ResourceReservation) × (reply ≡ ok r) × ((is_granted r ≡ true) ↔ Fits g q)

decide_reservation-Decides :
    (g : LocalResourceGuard) (action : String) (q : ResourceRequest) (dry : Bool) (id : String)
    (now : ℕ) (o : Option String)
    → denial g q ≡ o
    → Decides g q (decide_reservation g action q dry id now o).1
unfolding decide_reservation is_granted refusal grant
decide_reservation-Decides g action q dry id now (some why) e =
    (refusal g action q dry why id now, refl, ((λ h. cc), (λ f. cc (Fits-denial g q f))))
decide_reservation-Decides g action q true id now none e =
    (grant g action q true id now, refl, ((λ h. denial-Fits g q e), (λ f. refl)))
decide_reservation-Decides g action q false id now none e =
    (grant g action q false id now, refl, ((λ h. denial-Fits g q e), (λ f. refl)))

-- With an action named, `reserve` answers a reservation, dry run or not, and that is granted exactly
-- when the request (or the action's default) fits the budget in all five dimensions.
pub reserve-Decides :
    (g : LocalResourceGuard) (action : String) (q : Option ResourceRequest) (dry : Bool)
    (id : String) (now : ℕ)
    → (action == "") ≡ false
    → Decides g (request_or_default q action) (reserve g action q dry id now).1
unfolding reserve
reserve-Decides g action q dry id now e =
    rw e (decide_reservation-Decides g action _ dry id now _ refl)

-- What `reserve` answers is what is active under its identifier, if it is live; else nothing moved.
abbrev pub Reflects : LocalResourceGuard → LocalResourceGuard × Reply → Type 0
Reflects g (after, raise e) = after ≡ g
Reflects g (after, ok r) =
    (after.budget ≡ g.budget)
    × (after.journal ≡ g.journal ++ r ∷ [])
    × (after.active ≡ (if is_active r then put r.id r g.active else g.active))

-- Whatever the arguments, `reserve` either raises and changes nothing, or adds its answer to the
-- journal, keeps the budget, and makes the answer active if it is a live grant; a denial and a dry
-- run leave the active reservations as they were.
pub reserve-Reflects :
    (g : LocalResourceGuard) (action : String) (q : Option ResourceRequest) (dry : Bool)
    (id : String) (now : ℕ)
    → Reflects g (reserve g action q dry id now)
unfolding reserve decide_reservation is_active
reserve-Reflects g action q dry id now = elim (Bool-cases (action == "")) [
  | inl e ↦ rw e refl
  | inr e ↦ rw e (go (denial g (request_or_default q action)) dry)
]
  where
    go :
        (o : Option String) (dry : Bool)
        → Reflects g (decide_reservation g action (request_or_default q action) dry id now o)
    go (some why) dry = (refl, refl, refl)
    go none true = (refl, refl, refl)
    go none false = (refl, refl, refl)

-- A release of an identifier that is not active raises and changes nothing.
pub release-missing :
    (g : LocalResourceGuard) (id why : String) (now : ℕ)
    → get id g.active ≡ none
    → release g id why now ≡ (g, raise reservation_not_found)
unfolding release finish_release
release-missing g id why now h = rw h

active-release :
    (g : LocalResourceGuard) (id why : String) (now : ℕ)
    → (release g id why now).0.active ≡ pop id g.active
unfolding release
active-release g id why now = elim (Option-cases (get id g.active)) [
  | inl e ↦ rw e (unfold finish_release in sym (pop-missing id g.active e))
  | inr (r, e) ↦ rw e (unfold finish_release in refl)
]

active-decide_reservation :
    (g : LocalResourceGuard) (action : String) (q : ResourceRequest) (dry : Bool) (id : String)
    (now : ℕ) (o : Option String)
    → get id g.active ≡ none
    → pop id (decide_reservation g action q dry id now o).0.active ≡ g.active
unfolding decide_reservation grant
active-decide_reservation g action q dry id now (some why) h = pop-missing id g.active h
active-decide_reservation g action q true id now none h = pop-missing id g.active h
active-decide_reservation g action q false id now none h = pop-put_new id _ g.active h

-- Releasing under a fresh identifier what `reserve` may have granted under it leaves exactly the
-- reservations that were active before, also when `reserve` denied, ran dry or raised; and a second
-- release of it raises.
pub release-reserve :
    (g : LocalResourceGuard) (action : String) (q : Option ResourceRequest) (dry : Bool)
    (id why : String) (now later : ℕ)
    → get id g.active ≡ none
    → let after = (release (reserve g action q dry id now).0 id why later).0 in
      (after.active ≡ g.active)
      × (release after id why later ≡ (after, raise reservation_not_found))
release-reserve g action q dry id why now later fresh =
    (same, release-missing _ id why later (rw same fresh))
  where
    same : (release (reserve g action q dry id now).0 id why later).0.active ≡ g.active
    same = active-release _ id why later ∙ elim (Bool-cases (action == "")) [
      | inl e ↦ unfold reserve in rw e (pop-missing id g.active fresh)
      | inr e ↦ unfold reserve in rw e (active-decide_reservation g action _ dry id now _ fresh)
    ]
