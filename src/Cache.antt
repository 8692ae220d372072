-- ===== src/Cache.antt =====
-- cache_reuse.py: the cache policy, the entries and the store. A key is
-- the text that `stable_hash` or `key` of an operation or an intent made; `V` is the type of the values.
pub mod Fabric
pub mod Calls
pub mod Serves
pub mod Policies
pub mod Invalidation
use Prim.Native.Nat.{min}
use Prim.Native.String.{◌++◌ as str_append}
use cyber_hive.Prelude.{
  leb, if◌then◌else◌, is_some, string_eq, nat_eq, ◌==◌, is_nil, mem, Result, ℕ, ◌+◌, ◌*◌, String,
  Bool, true, false, ◌&&◌, ◌||◌, not, Option, none, some, List, [], ◌∷◌,
}
use cyber_hive.Prelude.Dict.{Dict, get, put, pop}

pub data CacheScope : Type 0 where
  open_scope tenant user session private_scope : CacheScope

-- `scope in {PUBLIC, TENANT}`
abbrev pub is_shared : CacheScope → Bool
is_shared open_scope = true
is_shared tenant = true
is_shared _ = false

pub data Sensitivity : Type 0 where
  open_data internal sensitive secret : Sensitivity

abbrev pub is_secret : Sensitivity → Bool
is_secret secret = true
is_secret _ = false

-- `sensitivity in {SENSITIVE, SECRET}`
abbrev pub is_sensitive : Sensitivity → Bool
is_sensitive sensitive = true
is_sensitive secret = true
is_sensitive _ = false

pub data CacheKind : Type 0 where
  exact_result semantic state artifact plan materialized_view : CacheKind

pub record CachePolicy : Type 0 where
  pub allow_secret_cache : Bool
  pub max_ttl_seconds_public : ℕ
  pub max_ttl_seconds_internal : ℕ
  pub max_ttl_seconds_sensitive : ℕ
  pub max_ttl_seconds_secret : ℕ
  pub require_acl_for_sensitive : Bool

abbrev pub default_policy : CachePolicy
default_policy = record {
  allow_secret_cache = false;
  max_ttl_seconds_public = 3600;
  max_ttl_seconds_internal = 900;
  max_ttl_seconds_sensitive = 300;
  max_ttl_seconds_secret = 30;
  require_acl_for_sensitive = true;
}

unfoldable pub cap_for : CachePolicy → Sensitivity → ℕ
cap_for p open_data = p.max_ttl_seconds_public
cap_for p internal = p.max_ttl_seconds_internal
cap_for p sensitive = p.max_ttl_seconds_sensitive
cap_for p secret = p.max_ttl_seconds_secret

unfoldable pub ttl_for : CachePolicy → Sensitivity → Option ℕ → ℕ
unfolding cap_for
ttl_for p s none = cap_for p s
ttl_for p s (some requested) = min (cap_for p s) requested

-- `none` allows; `some reason` denies.
unfoldable pub cache_denial :
    CachePolicy → Sensitivity → CacheScope → List String → Bool → Option String
cache_denial p s scope acl persist =
    if is_secret s && not p.allow_secret_cache
    then some "secret data is not cacheable by default"
    else if is_sensitive s && is_shared scope
    then some "sensitive data requires user/session/private scope"
    else if p.require_acl_for_sensitive && (is_sensitive s && is_nil acl)
    then some "sensitive cache entries require an ACL"
    else if is_secret s && persist
    then some "secret data cannot be persisted to disk in the MVP"
    else none

pub record CacheEntry (V : Type 0) : Type 0 where
  pub key : String
  pub kind : CacheKind
  pub value : V
  pub created_at : ℕ
  pub ttl_seconds : ℕ
  pub sensitivity : Sensitivity
  pub scope : CacheScope
  pub acl : List String
  pub tags : List String
  pub revision : Option String
  pub dependencies : List String
  pub hits : ℕ
  pub last_hit_at : Option ℕ

abbrev pub second : ℕ
second = 1000000

module _ {V : Type 0} where
  unfoldable pub expired : CacheEntry V → ℕ → Bool
  expired e now = leb (e.created_at + second * e.ttl_seconds) now

  unfoldable pub allowed_for : CacheEntry V → Option String → Bool
  allowed_for e none = is_nil e.acl
  allowed_for e (some subject) = is_nil e.acl || mem subject e.acl

  unfoldable pub touch : CacheEntry V → ℕ → CacheEntry V
  touch e now = record e { hits = e.hits + 1; last_hit_at = some now }

pub record InMemoryCacheStore (V : Type 0) : Type 0 where
  pub entries : Dict String (CacheEntry V)
  pub semantic_to_exact : Dict String String
  pub state_entries : Dict String String
  pub artifact_entries : Dict String String

-- the loop over the aliases of one mapping
unfoldable pub drop_aliases : String → Dict String String → Dict String String
drop_aliases key [] = []
drop_aliases key ((alias, target) ∷ rest) =
    let later = drop_aliases key rest in if target == key then later else (alias, target) ∷ later

-- what a look-up and what a put answer
abbrev pub Found : Type 0 → Type 0
Found V = InMemoryCacheStore V × Option (CacheEntry V)

abbrev pub Stored : Type 0 → Type 0
Stored V = InMemoryCacheStore V × Result String (CacheEntry V)

module _ {V : Type 0} where
  unfoldable pub put_entry : InMemoryCacheStore V → CacheEntry V → InMemoryCacheStore V
  put_entry s e = record s { entries = put e.key e s.entries }

  -- An expired entry goes; a hit is counted in place.
  unfoldable pub serve : InMemoryCacheStore V → String → Option String → ℕ → CacheEntry V → Found V
  unfolding expired allowed_for touch
  serve s key subject now e =
      if expired e now
      then (record s { entries = pop key s.entries }, none)
      else if not (allowed_for e subject)
      then (s, none)
      else (record s { entries = put key (touch e now) s.entries }, some (touch e now))

  unfoldable pub get_entry : InMemoryCacheStore V → String → Option String → ℕ → Found V
  unfolding serve
  get_entry s key subject now = elim (get key s.entries) [
    | none ↦ (s, none)
    | some e ↦ serve s key subject now e
  ]

  unfoldable pub invalidate_key : InMemoryCacheStore V → String → InMemoryCacheStore V × Bool
  unfolding drop_aliases
  invalidate_key s key = (
    record {
      entries = pop key s.entries;
      semantic_to_exact = drop_aliases key s.semantic_to_exact;
      state_entries = drop_aliases key s.state_entries;
      artifact_entries = drop_aliases key s.artifact_entries;
    },
    is_some (get key s.entries),
  )

  -- the loop over a copy of the items: what passes the test is invalidated and counted
  unfoldable pub sweep :
      (CacheEntry V → Bool)
      → Dict String (CacheEntry V)
      → InMemoryCacheStore V
      → InMemoryCacheStore V × ℕ
  unfolding invalidate_key
  sweep test [] s = (s, 0)
  sweep test ((key, e) ∷ rest) s =
      let s' = if test e then (invalidate_key s key).0 else s in
      let (swept, removed) = sweep test rest s' in (swept, if test e then removed + 1 else removed)

  unfoldable pub invalidate_by_dependency : InMemoryCacheStore V → String → InMemoryCacheStore V × ℕ
  unfolding sweep
  invalidate_by_dependency s dependency = sweep (λ e. mem dependency e.dependencies) s.entries s

  unfoldable pub cleanup_expired : InMemoryCacheStore V → ℕ → InMemoryCacheStore V × ℕ
  unfolding sweep expired
  cleanup_expired s now = sweep (λ e. expired e now) s.entries s
