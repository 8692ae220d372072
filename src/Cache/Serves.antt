-- ===== src/Cache/Serves.antt =====
-- cache_reuse.py: what the store hands out.
use cyber_hive.Prelude.{
  Option-cases, string_eq, nat_eq, ℕ, ◌+◌, ◌*◌, ◌<◌, String, ◌≡◌, ◌↔◌, inl, inr, true, Option, some,
  arith,
}
use cyber_hive.Prelude.Dict.{get}
use cyber_hive.Cache.{
  CacheEntry, second, expired, allowed_for, touch, InMemoryCacheStore, serve, get_entry,
}

-- The entry runs at `now` and its access list, if it has one, names the subject.
pub record Serves {V : Type 0} (e : CacheEntry V) (subject : Option String) (now : ℕ) : Type 0 where
  pub running : now < e.created_at + second * e.ttl_seconds
  pub allows : allowed_for e subject ≡ true

module _ {V : Type 0} where
  serve-Serves :
      (s : InMemoryCacheStore V) (key : String) (subject : Option String) (now : ℕ)
      (e : CacheEntry V)
      → ((serve s key subject now e).1 ≡ some (touch e now)) ↔ Serves e subject now
  unfolding serve expired
  serve-Serves s key subject now e = (
    λ h. record { running = ground arith; allows = ground arith },
    λ v. ground (arith, v.running, v.allows),
  )

  serve-cases :
      (s : InMemoryCacheStore V) (key : String) (subject : Option String) (now : ℕ)
      (e found : CacheEntry V)
      → (serve s key subject now e).1 ≡ some found
      → found ≡ touch e now
  unfolding serve
  serve-cases s key subject now e found h = ground arith

  -- A look-up finds exactly a stored entry that has not expired and whose access list is empty or names the
  -- subject, and returns it with the hit counted.
  pub get_entry-Serves :
      (s : InMemoryCacheStore V) (key : String) (subject : Option String) (now : ℕ)
      (found : CacheEntry V)
      → ((get_entry s key subject now).1 ≡ some found) ↔ (
          (e : CacheEntry V) × (get key s.entries ≡ some e)
          × Serves e subject now
          × (found ≡ touch e now))
  unfolding get_entry
  get_entry-Serves s key subject now found = (forth, back)
    where
      forth :
          (get_entry s key subject now).1 ≡ some found
          → (e : CacheEntry V) × (get key s.entries ≡ some e)
            × Serves e subject now
            × (found ≡ touch e now)
      forth h = elim (Option-cases (get key s.entries)) [
        | inl missing ↦ cc (rw (get_entry, missing) at h)
        | inr (e, stored) ↦
            let told = rw (get_entry, stored) at h in
            let same = serve-cases s key subject now e found told in
            (e, stored, (serve-Serves s key subject now e).0 (cc (told, same)), same)
      ]

      back :
          ((e : CacheEntry V) × (get key s.entries ≡ some e)
            × Serves e subject now
            × (found ≡ touch e now))
          → (get_entry s key subject now).1 ≡ some found
      back (e, stored, serves, same) =
          rw (get_entry, stored, same) ((serve-Serves s key subject now e).1 serves)
