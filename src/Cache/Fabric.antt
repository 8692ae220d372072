-- ===== src/Cache/Fabric.antt =====
-- cache_reuse.py: the puts and gets of CacheFabric.
use Prim.Native.String.{◌++◌ as str_append}
use cyber_hive.Prelude.{
  if◌then◌else◌, string_eq, nat_eq, ok, raise, is_empty, ℕ, String, Bool, false, Option, none, some,
  List, [], ◌∷◌,
}
use cyber_hive.Prelude.Dict.{Dict, get, put}
use cyber_hive.Cache.{
  CacheScope, tenant, private_scope, Sensitivity, internal, is_sensitive, CacheKind, exact_result,
  semantic, state, artifact, CachePolicy, ttl_for, cache_denial, CacheEntry, InMemoryCacheStore,
  Found, Stored, put_entry, get_entry,
}

module _ {V : Type 0} where
  -- `CacheFabric._put`
  unfoldable pub put_cached :
      CachePolicy
      → InMemoryCacheStore V
      → String
      → CacheKind
      → V
      → Sensitivity
      → CacheScope
      → Option ℕ
      → List String
      → List String
      → List String
      → Option String
      → Bool
      → ℕ
      → Stored V
  unfolding cache_denial ttl_for put_entry
  put_cached p s key kind value sensitivity scope ttl acl dependencies tags revision persist now =
      elim (cache_denial p sensitivity scope acl persist) [
        | some reason ↦ (s, raise (str_append "cache denied: " reason))
        | none ↦
            let e : CacheEntry V = record {
              key = key;
              kind = kind;
              value = value;
              created_at = now;
              ttl_seconds = ttl_for p sensitivity ttl;
              sensitivity = sensitivity;
              scope = scope;
              acl = acl;
              tags = tags;
              revision = revision;
              dependencies = dependencies;
              hits = 0;
              last_hit_at = none;
            } in
            (put_entry s e, ok e)
      ]

  -- `key` is `operation.key()` and `revision` the operation's.
  unfoldable pub put_exact :
      CachePolicy
      → InMemoryCacheStore V
      → String
      → Option String
      → V
      → Sensitivity
      → CacheScope
      → Option ℕ
      → List String
      → List String
      → List String
      → Bool
      → ℕ
      → Stored V
  unfolding put_cached
  put_exact p s key revision value sensitivity scope ttl acl dependencies tags persist now =
      put_cached p s key exact_result value sensitivity scope ttl acl dependencies tags revision
        persist now

  -- `key` is `intent.key()` and `revision` the intent's.
  unfoldable pub put_semantic :
      CachePolicy
      → InMemoryCacheStore V
      → String
      → Option String
      → V
      → Sensitivity
      → CacheScope
      → Option ℕ
      → List String
      → List String
      → List String
      → ℕ
      → Stored V
  unfolding put_cached
  put_semantic p s key revision value sensitivity scope ttl acl dependencies tags now =
      let (s', reply) =
        put_cached p s (str_append "sem:" key) semantic value sensitivity scope ttl acl dependencies
          tags revision false now in
      elim reply [
        | raise e ↦ (s', raise e)
        | ok e ↦ (record s' { semantic_to_exact = put key e.key s'.semantic_to_exact }, ok e)
      ]

  unfoldable pub get_semantic : InMemoryCacheStore V → String → Option String → ℕ → Found V
  unfolding get_entry
  get_semantic s key subject now = elim (get key s.semantic_to_exact) [
    | none ↦ get_entry s (str_append "sem:" key) subject now
    | some target ↦ get_entry s target subject now
  ]

  -- `key` is the hash of the state's id and revision.
  unfoldable pub put_state :
      CachePolicy
      → InMemoryCacheStore V
      → String
      → String
      → String
      → V
      → Option ℕ
      → List String
      → ℕ
      → Stored V
  unfolding put_cached
  put_state p s key state_id revision value ttl dependencies now =
      let (s', reply) =
        put_cached p s (str_append "state:" key) state value internal tenant ttl [] dependencies
          ("state" ∷ state_id ∷ []) (some revision) false now in
      elim reply [
        | raise e ↦ (s', raise e)
        | ok e ↦ (record s' { state_entries = put state_id e.key s'.state_entries }, ok e)
      ]

  -- the look-up of a state or an artifact by its alias
  unfoldable pub get_alias : InMemoryCacheStore V → Dict String String → String → ℕ → Found V
  unfolding get_entry
  get_alias s aliases id now = elim (get id aliases) [
    | none ↦ (s, none)
    | some key ↦ if is_empty key then (s, none) else get_entry s key none now
  ]

  unfoldable pub get_state : InMemoryCacheStore V → String → ℕ → Found V
  get_state s state_id now = get_alias s s.state_entries state_id now

  -- `key` is the hash of the artifact's id and content hash.
  unfoldable pub put_artifact :
      CachePolicy
      → InMemoryCacheStore V
      → String
      → String
      → V
      → String
      → Sensitivity
      → Option ℕ
      → List String
      → ℕ
      → Stored V
  unfolding put_cached
  put_artifact p s key artifact_id value content_hash sensitivity ttl dependencies now =
      let scope = if is_sensitive sensitivity then private_scope else tenant in
      let (s', reply) =
        put_cached p s (str_append "artifact:" key) artifact value sensitivity scope ttl []
          dependencies ("artifact" ∷ artifact_id ∷ []) (some content_hash) false now in
      elim reply [
        | raise e ↦ (s', raise e)
        | ok e ↦ (record s' { artifact_entries = put artifact_id e.key s'.artifact_entries }, ok e)
      ]

  unfoldable pub get_artifact : InMemoryCacheStore V → String → ℕ → Found V
  get_artifact s artifact_id now = get_alias s s.artifact_entries artifact_id now
