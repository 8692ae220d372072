-- ===== src/Prelude/Dict.antt =====
-- Python's `dict`: the items in the order of insertion. An update keeps the place of its key.
use mathlib.Core.Logic.{inl, inr}
use mathlib.Core.Path.{◌≡◌, refl, sym, subst}
use mathlib.Core.Bool.{true, false}
use mathlib.Core.List.{List, [], ◌∷◌}
use mathlib.Core.Option.{Option, none, some, some-injective}
use native.Mathlib.Omega.{arith}
use cyber_hive.Prelude.Tests.{if◌then◌else◌, Bool-cases, Eq, ◌==◌, nat_eq, string_eq}

abbrev pub Dict {ℓ} : Type ℓ → Type ℓ → Type ℓ
Dict K V = List (K × V)

pub beq_refl {ℓ} : {K : Type ℓ} ⦃e : Eq K⦄ (k : K) → (k == k) ≡ true
beq_refl ⦃e⦄ k = (e.beq_iff k k).1 refl

module _ {ℓ} {K V : Type ℓ} ⦃e : Eq K⦄ where
  unfoldable pub get : K → Dict K V → Option V
  get k [] = none
  get k ((j, v) ∷ d) = if j == k then some v else get k d

  unfoldable pub put : K → V → Dict K V → Dict K V
  put k v [] = (k, v) ∷ []
  put k v ((j, w) ∷ d) = let rest = put k v d in if j == k then (j, v) ∷ d else (j, w) ∷ rest

  -- `d.pop(k, None)`
  unfoldable pub pop : K → Dict K V → Dict K V
  pop k [] = []
  pop k ((j, v) ∷ d) = let rest = pop k d in if j == k then rest else (j, v) ∷ rest

  pub get-put :
      (k j : K) (v : V) (d : Dict K V) → get j (put k v d) ≡ (if k == j then some v else get j d)
  unfolding get put
  get-put k j v [] = refl
  get-put k j v ((i, w) ∷ d) =
      ground (arith, get-put k j v d, e.beq_iff i k, e.beq_iff i j, e.beq_iff k j)

  pub get-pop : (k j : K) (d : Dict K V) → get j (pop k d) ≡ (if k == j then none else get j d)
  unfolding get pop
  get-pop k j [] = ground arith
  get-pop k j ((i, w) ∷ d) =
      ground (arith, get-pop k j d, e.beq_iff i k, e.beq_iff i j, e.beq_iff k j)

  -- popping a key that was just added leaves the dictionary as it was
  pub pop-put_new : (k : K) (v : V) (d : Dict K V) → get k d ≡ none → pop k (put k v d) ≡ d
  unfolding get put pop
  pop-put_new k v [] h = ground (arith, beq_refl k)
  pop-put_new k v ((j, w) ∷ d) h = ground (arith, pop-put_new k v d)

  pub pop-missing : (k : K) (d : Dict K V) → get k d ≡ none → pop k d ≡ d
  unfolding get pop
  pop-missing k [] h = refl
  pop-missing k ((j, v) ∷ d) h = ground (arith, pop-missing k d)

-- A statement about every item of a dictionary.
abbrev pub Each {ℓ κ} : {K V : Type ℓ} → (K → V → Type κ) → Dict K V → Type κ
Each P [] = Unit
Each P ((k, v) ∷ d) = P k v × Each P d

module _ {ℓ κ} {K V : Type ℓ} ⦃e : Eq K⦄ (P : K → V → Type κ) where
  pub Each-get : (k : K) (v : V) (d : Dict K V) → Each P d → get k d ≡ some v → P k v
  unfolding get
  Each-get k v [] h g = cc
  Each-get k v ((j, w) ∷ d) h g = elim (Bool-cases (j == k)) [
    | inl same ↦
        subst (λ i. P i v) ((e.beq_iff j k).0 same)
          (subst (P j) (some-injective w v (rw same at g)) h.0)
    | inr other ↦ Each-get k v d h.1 (rw other at g)
  ]

  pub Each-put : (k : K) (v : V) (d : Dict K V) → Each P d → P k v → Each P (put k v d)
  unfolding put
  Each-put k v [] h p = (p, tt)
  Each-put k v ((j, w) ∷ d) h p = elim (Bool-cases (j == k)) [
    | inl same ↦ rw same (subst (λ i. P i v) (sym ((e.beq_iff j k).0 same)) p, h.1)
    | inr other ↦ rw other (h.0, Each-put k v d h.1 p)
  ]

  pub Each-pop : (k : K) (d : Dict K V) → Each P d → Each P (pop k d)
  unfolding pop
  Each-pop k [] h = tt
  Each-pop k ((j, w) ∷ d) h = elim (Bool-cases (j == k)) [
    | inl same ↦ rw same (Each-pop k d h.1)
    | inr other ↦ rw other (h.0, Each-pop k d h.1)
  ]

module _ {ℓ κ μ} {K V : Type ℓ} (P : K → V → Type κ) (Q : K → V → Type μ) where
  pub Each-map : ((k : K) (v : V) → P k v → Q k v) → (d : Dict K V) → Each P d → Each Q d
  Each-map f [] h = tt
  Each-map f ((k, v) ∷ d) h = (f k v h.0, Each-map f d h.1)

  pub Each-both : (d : Dict K V) → Each P d → Each Q d → Each (λ k v. P k v × Q k v) d
  Each-both [] h h' = tt
  Each-both ((k, v) ∷ d) h h' = ((h.0, h'.0), Each-both d h.1 h'.1)

module _ {ℓ} {K V : Type ℓ} ⦃e : Eq K⦄ where
  -- no key stands twice, as in every `dict`
  abbrev pub Distinct : Dict K V → Type ℓ
  Distinct [] = Unit
  Distinct ((k, v) ∷ d) = (get k d ≡ none) × Distinct d

  pub Each-missing : (k : K) (d : Dict K V) → get k d ≡ none → Each (λ j v. (j == k) ≡ false) d
  unfolding get
  Each-missing k [] h = tt
  Each-missing k ((j, v) ∷ d) h = elim (Bool-cases (j == k)) [
    | inl same ↦ cc (rw same at h)
    | inr other ↦ (other, Each-missing k d (rw other at h))
  ]

  -- an update in place, the other keys left as they are
  pub Each-update :
      (k : K) (v : V) (d : Dict K V) {w : V}
      → Distinct d
      → get k d ≡ some w
      → {P : K → V → Type ℓ} → P k v
      → ((j : K) (u : V) → (j == k) ≡ false → P j u)
      → Each P (put k v d)
  unfolding get put
  Each-update k v [] u h p q = cc
  Each-update k v ((j, w) ∷ d) u h {P} p q = elim (Bool-cases (j == k)) [
    | inl same ↦
        let is = (e.beq_iff j k).0 same in
        rw same (
          subst (λ i. P i v) (sym is) p,
          Each-map (λ j v. (j == k) ≡ false) P q d (Each-missing k d (rw is at u.0)),
        )
    | inr other ↦ rw other (q j w other, Each-update k v d u.1 (rw other at h) {P = P} p q)
  ]

  -- with distinct keys a look-up speaks of every item of its key
  pub Each-only :
      (k : K) (v : V) (d : Dict K V) → Distinct d → get k d ≡ some v → Each (λ j w. j ≡ k → w ≡ v) d
  unfolding get
  Each-only k v [] u h = tt
  Each-only k v ((j, w) ∷ d) u h = elim (Bool-cases (j == k)) [
    | inl same ↦ (
      (λ p. some-injective w v (rw same at h)),
      Each-map (λ i x. (i == k) ≡ false) (λ i x. i ≡ k → x ≡ v)
          (λ i x other p. cc (other, (e.beq_iff i k).1 p)) d
          (Each-missing k d (rw ((e.beq_iff j k).0 same) at u.0)),
    )
    | inr other ↦ ((λ p. cc (other, (e.beq_iff j k).1 p)), Each-only k v d u.1 (rw other at h))
  ]
