-- ===== src/Cache/Calls.antt =====
-- cache_reuse.py: one call on the fabric or its store, and a history of calls. The store's `put`, which
-- nothing but the fabric's puts calls, is no call of its own.
use cyber_hive.Prelude.{string_eq, nat_eq, ℕ, String, Bool, Option, List, [], ◌∷◌}
use cyber_hive.Cache.Fabric.{
  put_exact, put_semantic, get_semantic, put_state, get_state, put_artifact, get_artifact,
}
use cyber_hive.Cache.{
  CacheScope, Sensitivity, CachePolicy, InMemoryCacheStore, get_entry, invalidate_key,
  invalidate_by_dependency, cleanup_expired,
}

pub data Call (V : Type 0) : Type 0 where
  puts_exact :
      String
      → Option String
      → V
      → Sensitivity
      → CacheScope
      → Option ℕ
      → List String
      → List String
      → List String
      → Bool
      → ℕ
      → Call V
  puts_semantic :
      String
      → Option String
      → V
      → Sensitivity
      → CacheScope
      → Option ℕ
      → List String
      → List String
      → List String
      → ℕ
      → Call V
  puts_state : String → String → String → V → Option ℕ → List String → ℕ → Call V
  puts_artifact : String → String → V → String → Sensitivity → Option ℕ → List String → ℕ → Call V
  gets gets_semantic : String → Option String → ℕ → Call V
  gets_state gets_artifact : String → ℕ → Call V
  invalidates invalidates_dependency : String → Call V
  cleans : ℕ → Call V

module _ {V : Type 0} (p : CachePolicy) where
  unfoldable pub step : InMemoryCacheStore V → Call V → InMemoryCacheStore V
  step s (puts_exact key revision value sensitivity scope ttl acl dependencies tags persist now) =
      (put_exact p s key revision value sensitivity scope ttl acl dependencies tags persist now).0
  step s (puts_semantic key revision value sensitivity scope ttl acl dependencies tags now) =
      (put_semantic p s key revision value sensitivity scope ttl acl dependencies tags now).0
  step s (puts_state key state_id revision value ttl dependencies now) =
      (put_state p s key state_id revision value ttl dependencies now).0
  step s (puts_artifact key artifact_id value content_hash sensitivity ttl dependencies now) =
      (put_artifact p s key artifact_id value content_hash sensitivity ttl dependencies now).0
  step s (gets key subject now) = (get_entry s key subject now).0
  step s (gets_semantic key subject now) = (get_semantic s key subject now).0
  step s (gets_state state_id now) = (get_state s state_id now).0
  step s (gets_artifact artifact_id now) = (get_artifact s artifact_id now).0
  step s (invalidates key) = (invalidate_key s key).0
  step s (invalidates_dependency dependency) = (invalidate_by_dependency s dependency).0
  step s (cleans now) = (cleanup_expired s now).0

  unfoldable pub run : InMemoryCacheStore V → List (Call V) → InMemoryCacheStore V
  run s [] = s
  run s (c ∷ cs) = run (step s c) cs
