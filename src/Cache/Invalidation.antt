-- ===== src/Cache/Invalidation.antt =====
-- cache_reuse.py: what an invalidation leaves.
use mathlib.Core.Option.{some-injective}
use cyber_hive.Prelude.{
  Bool-cases, string_eq, nat_eq, ◌==◌, mem, ℕ, String, ◌≡◌, refl, ◌↔◌, inl, inr, Bool, true, false,
  none, some, [], ◌∷◌, arith, eq_iff,
}
use cyber_hive.Prelude.Dict.{Dict, get, pop, get-pop, Each, Each-map, Distinct, Each-only}
use cyber_hive.Cache.{
  CacheEntry, expired, InMemoryCacheStore, invalidate_key, sweep, invalidate_by_dependency,
  cleanup_expired,
}

module _ {V : Type 0} (test : CacheEntry V → Bool) where
  sweep-missing :
      (d : Dict String (CacheEntry V)) (s : InMemoryCacheStore V) (k : String)
      → get k s.entries ≡ none
      → get k (sweep test d s).0.entries ≡ none
  unfolding sweep invalidate_key
  sweep-missing [] s k h = h
  sweep-missing ((j, e) ∷ d) s k h = elim (Bool-cases (test e)) [
    | inl goes ↦
        rw goes
          (sweep-missing d (invalidate_key s j).0 k (rw (get-pop j k s.entries, h) (ground arith)))
    | inr stays ↦ rw stays (sweep-missing d s k h)
  ]

  sweep-kept :
      (d : Dict String (CacheEntry V)) (s : InMemoryCacheStore V) (k : String) (e : CacheEntry V)
      → get k (sweep test d s).0.entries ≡ some e
      → get k s.entries ≡ some e
  unfolding sweep invalidate_key
  sweep-kept [] s k e h = h
  sweep-kept ((j, x) ∷ d) s k e h = elim (Bool-cases (test x)) [
    | inr stays ↦ sweep-kept d s k e (rw stays at h)
    | inl goes ↦
        let kept : get k (pop j s.entries) ≡ some e =
          sweep-kept d (invalidate_key s j).0 k e (rw goes at h) in
        let left = rw (get-pop j k s.entries) at kept in
        elim (Bool-cases (j == k)) [
          | inl same ↦ cc (rw same at left)
          | inr other ↦ rw other at left
        ]
  ]

  sweep-gone :
      (d : Dict String (CacheEntry V)) (s : InMemoryCacheStore V) (k : String) (e : CacheEntry V)
      → get k d ≡ some e
      → test e ≡ true
      → get k (sweep test d s).0.entries ≡ none
  unfolding sweep invalidate_key get
  sweep-gone [] s k e h t = cc h
  sweep-gone ((j, x) ∷ d) s k e h t = elim (Bool-cases (j == k)) [
    | inl same ↦
        let is = some-injective x e (rw same at h) in
        rw (is, t)
          (sweep-missing d (invalidate_key s j).0 k (rw (get-pop j k s.entries, same) refl))
    | inr other ↦ elim (Bool-cases (test x)) [
      | inl goes ↦ rw goes (sweep-gone d (invalidate_key s j).0 k e (rw other at h) t)
      | inr stays ↦ rw stays (sweep-gone d s k e (rw other at h) t)
    ]
  ]

  sweep-spared :
      (d : Dict String (CacheEntry V)) (s : InMemoryCacheStore V) (k : String) (e : CacheEntry V)
      → Each (λ j x. j ≡ k → test x ≡ false) d
      → get k s.entries ≡ some e
      → get k (sweep test d s).0.entries ≡ some e
  unfolding sweep invalidate_key
  sweep-spared [] s k e safe h = h
  sweep-spared ((j, x) ∷ d) s k e safe h = elim (Bool-cases (test x)) [
    | inr stays ↦ rw stays (sweep-spared d s k e safe.1 h)
    | inl goes ↦ elim (Bool-cases (j == k)) [
      | inl same ↦ cc (goes, safe.0 ((eq_iff j k).0 same))
      | inr other ↦
          rw goes
            (sweep-spared d (invalidate_key s j).0 k e safe.1 (rw (get-pop j k s.entries, other) h))
    ]
  ]

  -- A sweep of a store with distinct keys leaves exactly what fails the test.
  sweep-exact :
      (s : InMemoryCacheStore V) (k : String) (e : CacheEntry V)
      → Distinct s.entries
      → (get k (sweep test s.entries s).0.entries ≡ some e)
        ↔ ((get k s.entries ≡ some e) × (test e ≡ false))
  sweep-exact s k e distinct = (forth, back)
    where
      forth :
          get k (sweep test s.entries s).0.entries ≡ some e
          → (get k s.entries ≡ some e) × (test e ≡ false)
      forth h =
          let stored = sweep-kept s.entries s k e h in
          (
            stored,
            elim (Bool-cases (test e)) [
              | inr stays ↦ stays
              | inl goes ↦ cc (h, sweep-gone s.entries s k e stored goes)
            ],
          )

      back :
          (get k s.entries ≡ some e) × (test e ≡ false)
          → get k (sweep test s.entries s).0.entries ≡ some e
      back (stored, stays) =
          sweep-spared s.entries s k e
            (Each-map (λ j x. j ≡ k → x ≡ e) (λ j x. j ≡ k → test x ≡ false)
              (λ j x f same. cc (f same, stays)) s.entries
              (Each-only k e s.entries distinct stored))
            stored

-- Invalidating a dependency leaves exactly the entries that do not depend on it, and a cleaning exactly
-- those that have not expired, in a store whose keys are distinct, as they are in every dictionary.
pub invalidate-exact :
    {V : Type 0} (s : InMemoryCacheStore V) (dependency : String) (now : ℕ) (k : String)
    (e : CacheEntry V)
    → Distinct s.entries
    → ((get k (invalidate_by_dependency s dependency).0.entries ≡ some e)
        ↔ ((get k s.entries ≡ some e) × (mem dependency e.dependencies ≡ false)))
      × ((get k (cleanup_expired s now).0.entries ≡ some e)
          ↔ ((get k s.entries ≡ some e) × (expired e now ≡ false)))
unfolding invalidate_by_dependency cleanup_expired
invalidate-exact s dependency now k e distinct = (
  sweep-exact (λ x. mem dependency x.dependencies) s k e distinct,
  sweep-exact (λ x. expired x now) s k e distinct,
)
