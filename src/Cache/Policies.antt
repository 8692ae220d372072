-- ===== src/Cache/Policies.antt =====
-- cache_reuse.py: what is in the cache keeps to the policy, after any calls.
use Prim.Native.String.{◌++◌ as str_append}
use cyber_hive.Prelude.{
  if◌then◌else◌, Bool-cases, Option-cases, string_eq, nat_eq, is_nil, mem, Result-cases, is_empty,
  ℕ, ◌+◌, ◌*◌, ◌≤◌, ◌<◌, String, ◌≡◌, refl, inl, inr, Bool, true, false, Option, none, some, List,
  [], ◌∷◌, arith,
}
use cyber_hive.Prelude.Dict.{Dict, get, Each, Each-get, Each-put, Each-pop}
use cyber_hive.Cache.Fabric.{
  put_cached, put_exact, put_semantic, get_semantic, put_state, get_alias, get_state, put_artifact,
  get_artifact,
}
use cyber_hive.Cache.{
  CacheScope, tenant, private_scope, is_shared, Sensitivity, internal, is_secret, is_sensitive,
  CacheKind, exact_result, semantic, state, artifact, CachePolicy, cap_for, ttl_for, cache_denial,
  CacheEntry, second, expired, allowed_for, touch, InMemoryCacheStore, put_entry, serve, get_entry,
  invalidate_key, sweep, invalidate_by_dependency, cleanup_expired,
}
use cyber_hive.Cache.Calls.{
  Call, puts_exact, puts_semantic, puts_state, puts_artifact, gets, gets_semantic, gets_state,
  gets_artifact, invalidates, invalidates_dependency, cleans, step, run,
}
use cyber_hive.Cache.Serves.{get_entry-Serves}

-- The entry is one that the policy lets in: its time to live is under the cap of its sensitivity, it is
-- secret only if the policy allows that, and if it is sensitive it has a scope of its own and, where the
-- policy asks for one, an access list.
pub record Compliant {V : Type 0} (p : CachePolicy) (e : CacheEntry V) : Type 0 where
  pub lifetime : e.ttl_seconds ≤ cap_for p e.sensitivity
  pub secrets : is_secret e.sensitivity ≡ true → p.allow_secret_cache ≡ true
  pub own_scope : is_sensitive e.sensitivity ≡ true → is_shared e.scope ≡ false
  pub listed :
      p.require_acl_for_sensitive ≡ true → is_sensitive e.sensitivity ≡ true → is_nil e.acl ≡ false

ttl_for-le : (p : CachePolicy) (s : Sensitivity) (ttl : Option ℕ) → ttl_for p s ttl ≤ cap_for p s
unfolding ttl_for
ttl_for-le p s none = omega arith
ttl_for-le p s (some requested) = ground arith

module _ {V : Type 0} (p : CachePolicy) where
  abbrev Complies : InMemoryCacheStore V → Type 0
  Complies s = Each (λ k e. Compliant p e) s.entries

  touch-Compliant : (e : CacheEntry V) (now : ℕ) → Compliant p e → Compliant p (touch e now)
  unfolding touch
  touch-Compliant e now c = record {
    lifetime = c.lifetime;
    secrets = c.secrets;
    own_scope = c.own_scope;
    listed = c.listed;
  }

  get_entry-Complies :
      (s : InMemoryCacheStore V) (key : String) (subject : Option String) (now : ℕ)
      → Complies s
      → Complies (get_entry s key subject now).0
  unfolding get_entry serve
  get_entry-Complies s key subject now c = elim (Option-cases (get key s.entries)) [
    | inl missing ↦ rw (get_entry, missing) c
    | inr (e, stored) ↦ elim (Bool-cases (expired e now)) [
      | inl over ↦
          rw (get_entry, stored, serve, over) (Each-pop (λ k e. Compliant p e) key s.entries c)
      | inr running ↦ elim (Bool-cases (allowed_for e subject)) [
        | inr barred ↦ rw (get_entry, stored, serve, running, barred) c
        | inl named ↦
            rw (get_entry, stored, serve, running, named)
              (Each-put (λ k e. Compliant p e) key (touch e now) s.entries c
                (touch-Compliant e now (Each-get (λ k e. Compliant p e) key e s.entries c stored)))
      ]
    ]
  ]

  get_semantic-Complies :
      (s : InMemoryCacheStore V) (key : String) (subject : Option String) (now : ℕ)
      → Complies s
      → Complies (get_semantic s key subject now).0
  unfolding get_semantic
  get_semantic-Complies s key subject now c = elim (Option-cases (get key s.semantic_to_exact)) [
    | inl missing ↦ rw (get_semantic, missing) (get_entry-Complies s _ subject now c)
    | inr (target, known) ↦ rw (get_semantic, known) (get_entry-Complies s target subject now c)
  ]

  get_alias-Complies :
      (s : InMemoryCacheStore V) (aliases : Dict String String) (id : String) (now : ℕ)
      → Complies s
      → Complies (get_alias s aliases id now).0
  unfolding get_alias
  get_alias-Complies s aliases id now c = elim (Option-cases (get id aliases)) [
    | inl missing ↦ rw (get_alias, missing) c
    | inr (key, known) ↦ elim (Bool-cases (is_empty key)) [
      | inl blank ↦ rw (get_alias, known, blank) c
      | inr named ↦ rw (get_alias, known, named) (get_entry-Complies s key none now c)
    ]
  ]

  sweep-Complies :
      (test : CacheEntry V → Bool) (d : Dict String (CacheEntry V)) (s : InMemoryCacheStore V)
      → Complies s
      → Complies (sweep test d s).0
  unfolding sweep invalidate_key
  sweep-Complies test [] s c = c
  sweep-Complies test ((j, e) ∷ d) s c = elim (Bool-cases (test e)) [
    | inl goes ↦ rw goes (
        sweep-Complies test d (invalidate_key s j).0
          (Each-pop (λ k e. Compliant p e) j s.entries c))
    | inr stays ↦ rw stays (sweep-Complies test d s c)
  ]

  put_cached-Complies :
      (s : InMemoryCacheStore V) (key : String) (kind : CacheKind) (value : V)
      (sensitivity : Sensitivity) (scope : CacheScope) (ttl : Option ℕ)
      (acl dependencies tags : List String) (revision : Option String) (persist : Bool) (now : ℕ)
      → Complies s
      → Complies
          (put_cached p s key kind value sensitivity scope ttl acl dependencies tags revision
            persist now).0
  unfolding put_cached put_entry
  put_cached-Complies s key kind value sensitivity scope ttl acl dependencies tags revision persist
        now c =
      elim (Option-cases (cache_denial p sensitivity scope acl persist)) [
        | inr (why, refused) ↦ rw (put_cached, refused) c
        | inl clear ↦
            rw (put_cached, clear, put_entry)
              (Each-put (λ k e. Compliant p e) key _ s.entries c
                (unfold cache_denial in
                  record {
                    lifetime = ttl_for-le p sensitivity ttl;
                    secrets = λ is. ground arith;
                    own_scope = λ is. ground arith;
                    listed = λ asked is. ground arith;
                  }))
      ]

  put_semantic-Complies :
      (s : InMemoryCacheStore V) (key : String) (revision : Option String) (value : V)
      (sensitivity : Sensitivity) (scope : CacheScope) (ttl : Option ℕ)
      (acl dependencies tags : List String) (now : ℕ)
      → Complies s
      → Complies
          (put_semantic p s key revision value sensitivity scope ttl acl dependencies tags now).0
  unfolding put_semantic
  put_semantic-Complies s key revision value sensitivity scope ttl acl dependencies tags now c =
      let kept =
        put_cached-Complies s (str_append "sem:" key) semantic value sensitivity scope ttl acl
          dependencies tags revision false now c in
      elim (Result-cases
        (put_cached p s (str_append "sem:" key) semantic value sensitivity scope ttl acl
          dependencies tags revision false now).1) [
            | inl (e, raised) ↦ rw (put_semantic, raised) kept
            | inr (e, stored) ↦ rw (put_semantic, stored) kept
          ]

  put_state-Complies :
      (s : InMemoryCacheStore V) (key state_id revision : String) (value : V) (ttl : Option ℕ)
      (dependencies : List String) (now : ℕ)
      → Complies s
      → Complies (put_state p s key state_id revision value ttl dependencies now).0
  unfolding put_state
  put_state-Complies s key state_id revision value ttl dependencies now c =
      let tags = "state" ∷ state_id ∷ [] in
      let kept =
        put_cached-Complies s (str_append "state:" key) state value internal tenant ttl []
          dependencies tags (some revision) false now c in
      elim (Result-cases
        (put_cached p s (str_append "state:" key) state value internal tenant ttl [] dependencies
          tags (some revision) false now).1) [
            | inl (e, raised) ↦ rw (put_state, raised) kept
            | inr (e, stored) ↦ rw (put_state, stored) kept
          ]

  put_artifact-Complies :
      (s : InMemoryCacheStore V) (key artifact_id : String) (value : V) (content_hash : String)
      (sensitivity : Sensitivity) (ttl : Option ℕ) (dependencies : List String) (now : ℕ)
      → Complies s
      → Complies
          (put_artifact p s key artifact_id value content_hash sensitivity ttl dependencies now).0
  unfolding put_artifact
  put_artifact-Complies s key artifact_id value content_hash sensitivity ttl dependencies now c =
      let tags = "artifact" ∷ artifact_id ∷ [] in
      let scope = if is_sensitive sensitivity then private_scope else tenant in
      let kept =
        put_cached-Complies s (str_append "artifact:" key) artifact value sensitivity scope ttl []
          dependencies tags (some content_hash) false now c in
      elim (Result-cases
        (put_cached p s (str_append "artifact:" key) artifact value sensitivity scope ttl []
          dependencies tags (some content_hash) false now).1) [
            | inl (e, raised) ↦ rw (put_artifact, raised) kept
            | inr (e, stored) ↦ rw (put_artifact, stored) kept
          ]

  step-Complies : (s : InMemoryCacheStore V) (c : Call V) → Complies s → Complies (step p s c)
  unfolding step put_exact get_state get_artifact invalidate_key invalidate_by_dependency
      cleanup_expired
  step-Complies s
        (puts_exact key revision value sensitivity scope ttl acl dependencies tags persist now) h =
      put_cached-Complies s key exact_result value sensitivity scope ttl acl dependencies tags
        revision persist now h
  step-Complies s (puts_semantic key revision value sensitivity scope ttl acl dependencies tags now)
        h =
      put_semantic-Complies s key revision value sensitivity scope ttl acl dependencies tags now h
  step-Complies s (puts_state key state_id revision value ttl dependencies now) h =
      put_state-Complies s key state_id revision value ttl dependencies now h
  step-Complies s
        (puts_artifact key artifact_id value content_hash sensitivity ttl dependencies now) h =
      put_artifact-Complies s key artifact_id value content_hash sensitivity ttl dependencies now h
  step-Complies s (gets key subject now) h = get_entry-Complies s key subject now h
  step-Complies s (gets_semantic key subject now) h = get_semantic-Complies s key subject now h
  step-Complies s (gets_state state_id now) h = get_alias-Complies s s.state_entries state_id now h
  step-Complies s (gets_artifact artifact_id now) h =
      get_alias-Complies s s.artifact_entries artifact_id now h
  step-Complies s (invalidates key) h = Each-pop (λ k e. Compliant p e) key s.entries h
  step-Complies s (invalidates_dependency dependency) h = sweep-Complies _ s.entries s h
  step-Complies s (cleans now) h = sweep-Complies _ s.entries s h

  run-Complies :
      (s : InMemoryCacheStore V) (cs : List (Call V)) → Complies s → Complies (run p s cs)
  unfolding run
  run-Complies s [] h = h
  run-Complies s (c ∷ cs) h = run-Complies (step p s c) cs (step-Complies s c h)

named_subject :
    {V : Type 0} (e : CacheEntry V) (subject : Option String)
    → allowed_for e subject ≡ true
    → is_nil e.acl ≡ false
    → (name : String) × (subject ≡ some name) × (mem name e.acl ≡ true)
unfolding allowed_for
named_subject e none allows listed = cc (allows, listed)
named_subject e (some name) allows listed = (name, refl, ground arith)

-- From an empty cache, whatever is put, looked up, invalidated and cleaned: what a look-up finds has been
-- there for less than the cap of its sensitivity; it is secret only if the policy allows that; and if the
-- policy asks for access lists, anything sensitive is handed out only to a subject that its list names.
pub run-Guarded :
    {V : Type 0} (p : CachePolicy) (s : InMemoryCacheStore V) (cs : List (Call V)) (key : String)
    (subject : Option String) (now : ℕ) (found : CacheEntry V)
    → s.entries ≡ []
    → (get_entry (run p s cs) key subject now).1 ≡ some found
    → (now < found.created_at + second * cap_for p found.sensitivity)
      × (is_secret found.sensitivity ≡ true → p.allow_secret_cache ≡ true)
      × (p.require_acl_for_sensitive ≡ true
          → is_sensitive found.sensitivity ≡ true
          → (name : String) × (subject ≡ some name) × (mem name found.acl ≡ true))
unfolding touch
run-Guarded p s cs key subject now found start h =
    let (e, stored, serves, same) = (get_entry-Serves (run p s cs) key subject now found).0 h in
    let c =
      Each-get (λ k e. Compliant p e) key e (run p s cs).entries (run-Complies p s cs (rw start tt))
        stored in
    rw same (
      omega (arith, serves.running, c.lifetime),
      c.secrets,
      λ asked is. named_subject e subject serves.allows (c.listed asked is),
    )
