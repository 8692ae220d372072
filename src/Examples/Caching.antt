-- ===== src/Examples/Caching.antt =====
-- cache_reuse.py at concrete inputs: a sensitive result with an access list.
use cyber_hive.Prelude.{
  string_eq, nat_eq, mem, ℕ, ◌+◌, ◌*◌, ◌<◌, String, ◌≡◌, refl, true, false, none, some, List, [],
  ◌∷◌,
}
use cyber_hive.Prelude.Dict.{get, put}
use cyber_hive.Cache.Fabric.{put_cached, put_exact, put_state}
use cyber_hive.Cache.{
  session, sensitive, secret, is_secret, is_sensitive, exact_result, default_policy, cap_for,
  ttl_for, cache_denial, CacheEntry, second, expired, allowed_for, touch, InMemoryCacheStore,
  put_entry, serve, get_entry, sweep, cleanup_expired,
}
use cyber_hive.Cache.Calls.{Call, puts_exact, puts_state, cleans, step, run}
use cyber_hive.Cache.Policies.{run-Guarded}

abbrev empty_store : InMemoryCacheStore ℕ
empty_store = record {
  entries = [];
  semantic_to_exact = [];
  state_entries = [];
  artifact_entries = [];
}

abbrev filling : List (Call ℕ)
filling =
    puts_exact "op" none 7 sensitive session none ("ann" ∷ []) ("model" ∷ []) [] false 1000000
    ∷ puts_state "h" "room" "r1" 8 none ("room" ∷ []) 1000000
    ∷ puts_exact "bad" none 9 secret session none ("ann" ∷ []) [] [] false 1000000
    ∷ cleans 2000000
    ∷ []

abbrev cached : CacheEntry ℕ
cached = record {
  key = "op";
  kind = exact_result;
  value = 7;
  created_at = 1000000;
  ttl_seconds = 300;
  sensitivity = sensitive;
  scope = session;
  acl = "ann" ∷ [];
  tags = [];
  revision = none;
  dependencies = "model" ∷ [];
  hits = 0;
  last_hit_at = none;
}

abbrev hit : CacheEntry ℕ
hit = record cached { hits = 1; last_hit_at = some 3000000 }

found_hit :
    (get_entry (run default_policy empty_store filling) "op" (some "ann") 3000000).1 ≡ some hit
unfolding run step put_exact put_cached put_entry put_state cache_denial ttl_for cap_for put get
    get_entry serve expired allowed_for touch mem cleanup_expired sweep
found_hit = refl

run-Guarded_example :
    (3000000 < 1000000 + second * cap_for default_policy sensitive)
    × (is_secret sensitive ≡ true → default_policy.allow_secret_cache ≡ true)
    × (default_policy.require_acl_for_sensitive ≡ true
        → is_sensitive sensitive ≡ true
        → (name : String) × (some "ann" ≡ some name) × (mem name ("ann" ∷ []) ≡ true))
run-Guarded_example =
    run-Guarded default_policy empty_store filling "op" (some "ann") 3000000 hit refl found_hit

abbrev small_store : InMemoryCacheStore ℕ
small_store = record empty_store { entries = ("op", cached) ∷ [] }
