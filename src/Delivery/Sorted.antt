-- ===== src/Delivery/Sorted.antt =====
-- node_delivery.py: the order in which `ready` hands the items out.
use Prim.Native.Char.{code}
use Prim.Native.Nat.{compare, Ordering, min}
use Prim.Native.String.{then as then_by}
use Prim.Native.String
use mathlib.Core.List.{Perm}
use mathlib.Core.List.Perm
use cyber_hive.Prelude.{
  ltb, str_ltb, Bool-cases, string_eq, nat_eq, length, keep, All, ℕ, zero, suc, ◌-◌, ◌<◌, String,
  ◌≡◌, refl, sym, ap, ◌∙◌, ◌⊎◌, inl, inr, true, false, none, some, List, [], ◌∷◌, ◌++◌, arith,
}
use cyber_hive.Delivery.Item.{
  DeliveryPriority, low, normal, high, critical, priority_weight, DeliveryItem, is_ready,
}
use cyber_hive.Delivery.Queue.{
  DeliveryQueue, values, comes_before, insert, sort, take, ℤ, pos, negsuc, limited, ready,
}

abbrev flipped : Ordering → Ordering
flipped Ordering.lt = Ordering.gt
flipped Ordering.eq = Ordering.eq
flipped Ordering.gt = Ordering.lt

compare-flipped_numbers : (m n : ℕ) → compare n m ≡ flipped (compare m n)
compare-flipped_numbers m n = ground arith

then-flipped : (o p : Ordering) → then_by (flipped o) (flipped p) ≡ flipped (then_by o p)
then-flipped Ordering.lt p = refl
then-flipped Ordering.eq p = refl
then-flipped Ordering.gt p = refl

compare-flipped : (a b : String) → String.compare b a ≡ flipped (String.compare a b)
compare-flipped String.[] String.[] = refl
compare-flipped String.[] (String.◌∷◌ d b) =
    String.compare.cons-nil d b ∙ sym (ap flipped (String.compare.nil-cons d b))
compare-flipped (String.◌∷◌ c a) String.[] =
    String.compare.nil-cons c a ∙ sym (ap flipped (String.compare.cons-nil c a))
compare-flipped (String.◌∷◌ c a) (String.◌∷◌ d b) =
    rw
      (
        String.compare.cons-cons c d a b,
        String.compare.cons-cons d c b a,
        compare-flipped_numbers (code c) (code d),
        compare-flipped a b,
      )
      (then-flipped (compare (code c) (code d)) (String.compare a b))

str_asym : (a b : String) → str_ltb a b ≡ true → str_ltb b a ≡ false
str_asym a b h = ground (arith, compare-flipped a b)

-- a text that is smaller than a third one is smaller than any that is not
str_between : (a b c : String) → str_ltb a c ≡ true → str_ltb b c ≡ false → str_ltb a b ≡ true
str_between String.[] String.[] String.[] h k = h
str_between String.[] (String.◌∷◌ y b) c h k = rw (str_ltb, String.compare.nil-cons y b) refl
str_between (String.◌∷◌ x a) b String.[] h k = cc (rw (str_ltb, String.compare.cons-nil x a) at h)
str_between String.[] String.[] (String.◌∷◌ z c) h k = cc (h, k)
str_between (String.◌∷◌ x a) String.[] (String.◌∷◌ z c) h k =
    cc (rw (str_ltb, String.compare.nil-cons z c) at k)
str_between (String.◌∷◌ x a) (String.◌∷◌ y b) (String.◌∷◌ z c) h k =
    let h' = rw (str_ltb, String.compare.cons-cons x z a c) at h in
    let k' = rw (str_ltb, String.compare.cons-cons y z b c) at k in
    rw (str_ltb, String.compare.cons-cons x y a b) (ground (arith, h', k', str_between a b c))

-- the rank of a priority, the most urgent last
abbrev pub rank : DeliveryPriority → ℕ
rank low = 0
rank normal = 1
rank high = 2
rank critical = 3

-- Of two items the one of higher priority is ahead, of the same priority the older one, and of the same
-- age the one with the smaller id.
abbrev pub Ahead : DeliveryItem → DeliveryItem → Type 0
Ahead y x =
    (rank x.priority < rank y.priority)
    ⊎ ((y.priority ≡ x.priority)
        × ((y.created_at < x.created_at)
            ⊎ ((y.created_at ≡ x.created_at) × (str_ltb y.id x.id ≡ true))))

-- No item stands anywhere behind one that it is ahead of.
abbrev pub IsSorted : List DeliveryItem → Type 0
IsSorted [] = Unit
IsSorted (x ∷ xs) = All (λ y. ¬ Ahead y x) xs × IsSorted xs

before_by_rank :
    (p q : DeliveryPriority) → rank p < rank q → ltb (priority_weight p) (priority_weight q) ≡ true
unfolding priority_weight
before_by_rank low normal h = refl
before_by_rank low high h = refl
before_by_rank low critical h = refl
before_by_rank normal high h = refl
before_by_rank normal critical h = refl
before_by_rank high critical h = refl
before_by_rank low low h = ground arith
before_by_rank normal low h = ground arith
before_by_rank normal normal h = ground arith
before_by_rank high low h = ground arith
before_by_rank high normal h = ground arith
before_by_rank high high h = ground arith
before_by_rank critical low h = ground arith
before_by_rank critical normal h = ground arith
before_by_rank critical high h = ground arith
before_by_rank critical critical h = ground arith

Ahead-comes_before : (y x : DeliveryItem) → Ahead y x → comes_before y x ≡ true
unfolding comes_before
Ahead-comes_before y x (inl higher) = rw (before_by_rank x.priority y.priority higher) refl
Ahead-comes_before y x (inr (same, rest)) =
    let weights : priority_weight y.priority ≡ priority_weight x.priority =
      ap priority_weight same in
    ground (arith, weights, rest)

-- nothing comes before itself twice over: of two items at most one comes before the other
before_asym : (a b : DeliveryItem) → comes_before a b ≡ true → comes_before b a ≡ false
unfolding comes_before
before_asym a b h = ground (arith, str_asym a.id b.id)

before_between :
    (a b c : DeliveryItem)
    → comes_before a c ≡ true
    → comes_before b c ≡ false
    → comes_before a b ≡ true
unfolding comes_before
before_between a b c h k = ground (arith, str_between a.id b.id c.id)

-- the same by the code's own test
abbrev InOrder : List DeliveryItem → Type 0
InOrder [] = Unit
InOrder (x ∷ xs) = All (λ y. comes_before y x ≡ false) xs × InOrder xs

insert-All :
    (P : DeliveryItem → Type 0) (r : DeliveryItem) (xs : List DeliveryItem)
    → P r
    → All P xs
    → All P (insert r xs)
unfolding insert
insert-All P r [] p h = (p, tt)
insert-All P r (x ∷ xs) p h = elim (Bool-cases (comes_before x r)) [
  | inl b ↦ rw b (h.0, insert-All P r xs p h.1)
  | inr b ↦ rw b (p, h)
]

All-before :
    (r x : DeliveryItem) (xs : List DeliveryItem)
    → comes_before x r ≡ false
    → All (λ y. comes_before y x ≡ false) xs
    → All (λ y. comes_before y r ≡ false) xs
All-before r x [] b h = tt
All-before r x (y ∷ xs) b h = (
  elim (Bool-cases (comes_before y r)) [
    | inl ahead ↦ cc (before_between y x r ahead b, h.0)
    | inr behind ↦ behind
  ],
  All-before r x xs b h.1,
)

insert-InOrder : (r : DeliveryItem) (xs : List DeliveryItem) → InOrder xs → InOrder (insert r xs)
unfolding insert
insert-InOrder r [] s = (tt, tt)
insert-InOrder r (x ∷ xs) s = elim (Bool-cases (comes_before x r)) [
  | inl b ↦ rw b (
    insert-All (λ y. comes_before y x ≡ false) r xs (before_asym x r b) s.0,
    insert-InOrder r xs s.1,
  )
  | inr b ↦ rw b ((b, All-before r x xs b s.0), s)
]

sort-InOrder : (xs : List DeliveryItem) → InOrder (sort xs)
unfolding sort
sort-InOrder [] = tt
sort-InOrder (x ∷ xs) = insert-InOrder x (sort xs) (sort-InOrder xs)

All-behind :
    (x : DeliveryItem) (xs : List DeliveryItem)
    → All (λ y. comes_before y x ≡ false) xs
    → All (λ y. ¬ Ahead y x) xs
All-behind x [] h = tt
All-behind x (y ∷ xs) h = ((λ ahead. cc (Ahead-comes_before y x ahead, h.0)), All-behind x xs h.1)

InOrder-IsSorted : (xs : List DeliveryItem) → InOrder xs → IsSorted xs
InOrder-IsSorted [] h = tt
InOrder-IsSorted (x ∷ xs) h = (All-behind x xs h.0, InOrder-IsSorted xs h.1)

insert-Perm : (r : DeliveryItem) (xs : List DeliveryItem) → Perm (insert r xs) (r ∷ xs)
unfolding insert
insert-Perm r [] = Perm.refl (r ∷ [])
insert-Perm r (x ∷ xs) = elim (Bool-cases (comes_before x r)) [
  | inl b ↦ rw b (Perm.trans (Perm.cons x (insert-Perm r xs)) (Perm.swap r x xs))
  | inr b ↦ rw b (Perm.refl (r ∷ x ∷ xs))
]

sort-Perm : (xs : List DeliveryItem) → Perm (sort xs) xs
unfolding sort
sort-Perm [] = Perm.refl []
sort-Perm (x ∷ xs) = Perm.trans (insert-Perm x (sort xs)) (Perm.cons x (sort-Perm xs))

-- how many of `m` items the slice `[:limit]` keeps
abbrev pub kept : ℤ → ℕ → ℕ
kept (pos n) m = min n m
kept (negsuc n) m = m - suc n

take-prefix :
    (n : ℕ) (xs : List DeliveryItem)
    → (length (take n xs) ≡ min n (length xs))
      × (rest : List DeliveryItem) × (xs ≡ take n xs ++ rest)
unfolding take
take-prefix n [] = (omega arith, [], refl)
take-prefix zero (x ∷ xs) = (omega arith, x ∷ xs, refl)
take-prefix (suc n) (x ∷ xs) =
    let (short, rest, e) = take-prefix n xs in (omega (arith, short), rest, ap (λ ys. x ∷ ys) e)

limited-prefix :
    (limit : ℤ) (xs : List DeliveryItem)
    → (length (limited (some limit) xs) ≡ kept limit (length xs))
      × (rest : List DeliveryItem) × (xs ≡ limited (some limit) xs ++ rest)
unfolding limited
limited-prefix (pos n) xs = take-prefix n xs
limited-prefix (negsuc n) xs =
    let (short, rest, e) = take-prefix (length xs - suc n) xs in (omega (arith, short), rest, e)

-- Without a limit `ready` hands out exactly the items that are ready, each as often as the queue has it,
-- and none behind one of lower priority, or of the same priority that is younger, or of the same age with
-- a greater id. With a limit `n` it hands out the first of these: `n` of them, or all where there are
-- fewer; with a negative limit all but so many at the end.
pub ready-IsSorted :
    (q : DeliveryQueue) (now : ℕ) (limit : ℤ)
    → IsSorted (ready q now none)
      × Perm (ready q now none) (keep (λ r. is_ready r now) (values q.items))
      × (length (ready q now (some limit)) ≡ kept limit (length (ready q now none)))
      × (rest : List DeliveryItem) × (ready q now none ≡ ready q now (some limit) ++ rest)
unfolding ready limited
ready-IsSorted q now limit =
    let found = keep (λ r. is_ready r now) (values q.items) in
    let (short, rest, e) = limited-prefix limit (sort found) in
    (InOrder-IsSorted (sort found) (sort-InOrder found), sort-Perm found, short, rest, e)
