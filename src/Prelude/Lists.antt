-- ===== src/Prelude/Lists.antt =====
-- Lists measured by native numbers, membership as a Boolean test, and `sorted(set(...))`.
use Prim.Native.Nat.{ℕ, suc, ◌+◌}
use Prim.Native.String.{String}
use mathlib.Core.Path.{◌≡◌, refl}
use mathlib.Core.Bool.{Bool, true, false, ◌&&◌, ◌||◌}
use mathlib.Core.List.{List, [], ◌∷◌, ◌++◌}
use native.Mathlib.Omega.{arith}
use text.Mathlib.TextEquality.{eq_iff}
use text.Mathlib.TextPositions.{eq_refl}
use cyber_hive.Prelude.Tests.{◌==◌, string_eq, if◌then◌else◌, str_ltb}

module _ {ℓ} {A : Type ℓ} where
  abbrev pub length : List A → ℕ
  length [] = 0
  length (x ∷ xs) = suc (length xs)

  -- Python's truth value of a sequence, negated
  abbrev pub is_nil : List A → Bool
  is_nil [] = true
  is_nil (x ∷ xs) = false

  -- the comprehension `tuple(x for x in xs if test(x))`
  unfoldable pub keep : (A → Bool) → List A → List A
  keep test [] = []
  keep test (x ∷ xs) = let rest = keep test xs in if test x then x ∷ rest else rest

  unfoldable pub any : (A → Bool) → List A → Bool
  any test [] = false
  any test (x ∷ xs) = test x || any test xs

  abbrev pub All {κ} : (A → Type κ) → List A → Type κ
  All P [] = Unit
  All P (x ∷ xs) = P x × All P xs

  pub length-append : (xs ys : List A) → length (xs ++ ys) ≡ length xs + length ys
  length-append [] ys = omega arith
  length-append (x ∷ xs) ys = omega (arith, length-append xs ys)

module _ {ℓ} {A : Type ℓ} where
  pub All-append {κ} : (P : A → Type κ) (xs ys : List A) → All P xs → All P ys → All P (xs ++ ys)
  All-append P [] ys hx hy = hy
  All-append P (x ∷ xs) ys hx hy = (hx.0, All-append P xs ys hx.1 hy)

  pub any-append :
      (test : A → Bool) (xs ys : List A) → any test (xs ++ ys) ≡ (any test xs || any test ys)
  unfolding any
  any-append test [] ys = refl
  any-append test (x ∷ xs) ys = ground (arith, any-append test xs ys)

-- `t in xs` for a tuple of texts
unfoldable pub mem : String → List String → Bool
mem t [] = false
mem t (x ∷ xs) = (x == t) || mem t xs

pub mem-append : (t : String) (xs ys : List String) → mem t (xs ++ ys) ≡ (mem t xs || mem t ys)
unfolding mem
mem-append t [] ys = refl
mem-append t (x ∷ xs) ys = ground (arith, mem-append t xs ys)

-- `set(xs).issubset(ys)`
unfoldable pub subset : List String → List String → Bool
subset [] ys = true
subset (x ∷ xs) ys = mem x ys && subset xs ys

pub subset-mem :
    (t : String) (xs ys : List String) → subset xs ys ≡ true → mem t xs ≡ true → mem t ys ≡ true
unfolding subset mem
subset-mem t [] ys h m = ground arith
subset-mem t (x ∷ xs) ys h m = ground (arith, subset-mem t xs ys, eq_iff x t)

pub subset_of_mem :
    (xs ys : List String) → ((t : String) → mem t xs ≡ true → mem t ys ≡ true) → subset xs ys ≡ true
unfolding subset mem
subset_of_mem [] ys h = refl
subset_of_mem (x ∷ xs) ys h =
    ground (arith, h x, eq_refl x, subset_of_mem xs ys (λ t m. h t (ground arith)))

pub subset_refl : (xs : List String) → subset xs xs ≡ true
subset_refl xs = subset_of_mem xs xs (λ t m. m)

-- one text put in its place, unless it is there
unfoldable pub insert_sorted : String → List String → List String
insert_sorted t [] = t ∷ []
insert_sorted t (x ∷ xs) =
    let rest = insert_sorted t xs in
    if x == t then x ∷ xs else if str_ltb t x then t ∷ x ∷ xs else x ∷ rest

unfoldable pub sorted_set : List String → List String
unfolding insert_sorted
sorted_set [] = []
sorted_set (x ∷ xs) = insert_sorted x (sorted_set xs)

mem-insert_sorted :
    (t u : String) (xs : List String) → mem u (insert_sorted t xs) ≡ ((t == u) || mem u xs)
unfolding mem insert_sorted
mem-insert_sorted t u [] = refl
mem-insert_sorted t u (x ∷ xs) =
    ground (arith, mem-insert_sorted t u xs, eq_iff x t, eq_iff x u, eq_iff t u)

pub mem-sorted_set : (u : String) (xs : List String) → mem u (sorted_set xs) ≡ mem u xs
unfolding mem sorted_set
mem-sorted_set u [] = refl
mem-sorted_set u (x ∷ xs) =
    ground (arith, mem-insert_sorted x u (sorted_set xs), mem-sorted_set u xs)

pub mem-keep :
    (test : String → Bool) (t : String) (xs : List String)
    → mem t (keep test xs) ≡ (mem t xs && test t)
unfolding mem keep
mem-keep test t [] = refl
mem-keep test t (x ∷ xs) = ground (arith, mem-keep test t xs, eq_iff x t)
