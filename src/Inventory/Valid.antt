-- ===== src/Inventory/Valid.antt =====
-- inventory.py: what the registry holds is valid.
use cyber_hive.Prelude.{
  if◌then◌else◌, Bool-cases, Option-cases, ◌==◌, nat_eq, string_eq, Result, ok, raise, is_empty,
  String, ◌≡◌, refl, ◌↔◌, ◌⊎◌, inl, inr, Bool, true, false, some, List, [], ◌∷◌, arith, eq_iff,
}
use cyber_hive.Inventory.{
  is_public, is_denied, is_indexed, is_secret, is_sensitive, InventoryItem, InventoryError,
  validate, InventoryRegistry, add, upsert, find, set_enabled, Edit, adds, upserts, sets_enabled,
  step, run,
}
use cyber_hive.Prelude.Dict.{get, put, get-put}

-- What a valid item promises.
pub record IsValid (item : InventoryItem) : Type 0 where
  pub has_id : is_empty item.id ≡ false
  pub has_kind : is_empty item.kind ≡ false
  pub no_sensitive_public : is_public item.exposure ≡ true → is_sensitive item.sensitivity ≡ false
  pub no_denied_public : is_public item.exposure ≡ true → is_denied item.access ≡ false
  pub no_secret_index : is_indexed item.indexing ≡ true → is_secret item.sensitivity ≡ false

-- `validate` passes exactly the items that name an id and a kind, are not public while sensitive,
-- secret or denied, and are not indexed while secret.
pub validate-IsValid : (item : InventoryItem) → (validate item ≡ ok tt) ↔ IsValid item
unfolding validate
validate-IsValid item = (
  λ h. record {
    has_id = ground arith;
    has_kind = ground arith;
    no_sensitive_public = λ p. ground arith;
    no_denied_public = λ p. ground arith;
    no_secret_index = λ p. ground arith;
  },
  λ v.
      ground
        (arith, v.has_id, v.has_kind, v.no_sensitive_public, v.no_denied_public, v.no_secret_index),
)

-- Every item stands under its own id and is valid.
abbrev pub Sound : InventoryRegistry → Type 0
Sound items =
    (id : String) (item : InventoryItem)
    → get id items ≡ some item
    → (item.id ≡ id) × (validate item ≡ ok tt)

Sound-put :
    (items : InventoryRegistry) (k : String) (new : InventoryItem)
    → Sound items
    → new.id ≡ k
    → validate new ≡ ok tt
    → Sound (put k new items)
Sound-put items k new s here v id item h =
    let e : (if k == id then some new else get id items) ≡ some item = rw get-put at h in
    elim (Bool-cases (k == id)) [
      | inl same ↦ ground (arith, eq_iff k id)
      | inr other ↦ s id item (rw other at e)
    ]

validate-cases :
    (item : InventoryItem)
    → ((x : InventoryError) × (validate item ≡ raise x)) ⊎ (validate item ≡ ok tt)
validate-cases item = go (validate item) refl
  where
    go :
        (r : Result InventoryError (Unit {0}))
        → validate item ≡ r
        → ((x : InventoryError) × (validate item ≡ raise x)) ⊎ (validate item ≡ ok tt)
    go (raise x) e = inl (x, e)
    go (ok tt) e = inr e

validate-enabled :
    (item : InventoryItem) (b : Bool) → validate (record item { enabled = b }) ≡ validate item
unfolding validate
validate-enabled item b = refl

-- Every call of `add`, `upsert` and `set_enabled`, failing or not, keeps the registry sound.
pub step-Sound : (items : InventoryRegistry) (c : Edit) → Sound items → Sound (step items c).0
unfolding step
step-Sound items (adds item) s = elim (validate-cases item) [
  | inl (x, e) ↦ rw (e, add) s
  | inr e ↦ elim (Option-cases (get item.id items)) [
    | inl free ↦ rw (e, add, free) (Sound-put items item.id item s refl e)
    | inr (old, taken) ↦ rw (e, add, taken) s
  ]
]
step-Sound items (upserts item) s = elim (validate-cases item) [
  | inl (x, e) ↦ rw (e, upsert) s
  | inr e ↦ rw (e, upsert) (Sound-put items item.id item s refl e)
]
step-Sound items (sets_enabled id b) s = elim (Option-cases (get id items)) [
  | inl e ↦ rw (e, set_enabled) s
  | inr (item, e) ↦
      let (here, v) = s id item e in
      rw (e, set_enabled)
        (Sound-put items id (record item { enabled = b }) s here (rw validate-enabled v))
]

run-Sound : (items : InventoryRegistry) (cs : List Edit) → Sound items → Sound (run items cs)
unfolding run
run-Sound items [] s = s
run-Sound items (c ∷ cs) s = run-Sound (step items c).0 cs (step-Sound items c s)

empty-Sound : Sound []
unfolding get
empty-Sound id item h = cc

get-find :
    (items : InventoryRegistry) (id : String) (item : InventoryItem)
    → find items id ≡ ok item
    → get id items ≡ some item
unfolding find
get-find items id item h = ground arith

-- From the empty registry, whatever the calls, an item that a look-up finds stands under its own id,
-- is valid, and so is never public while sensitive or secret, nor indexed while secret.
pub run-IsValid :
    (cs : List Edit) (id : String) (item : InventoryItem)
    → find (run [] cs) id ≡ ok item
    → (item.id ≡ id) × IsValid item
run-IsValid cs id item h =
    let (here, v) = run-Sound [] cs empty-Sound id item (get-find (run [] cs) id item h) in
    (here, (validate-IsValid item).0 v)
