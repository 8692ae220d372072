-- ===== src/Inventory.antt =====
-- inventory.py: the items, their validation and the registry.
pub mod Valid
use cyber_hive.Prelude.{
  if◌then◌else◌, is_some, ◌==◌, nat_eq, string_eq, is_nil, any, mem, Result, ok, raise, ◌>>=◌, ◌>>◌,
  is_empty, String, Bool, true, false, ◌&&◌, ◌||◌, not, Option, none, some, List, [], ◌∷◌,
}
use cyber_hive.Prelude.Dict.{Dict, get, put}

pub data IndexingMode : Type 0 where
  indexed non_indexed : IndexingMode

pub data AccessMode : Type 0 where
  allowed gated denied : AccessMode

pub data ExposureMode : Type 0 where
  only_private lan authenticated public_facing : ExposureMode

pub data Sensitivity : Type 0 where
  open_data internal sensitive secret : Sensitivity

abbrev pub is_public : ExposureMode → Bool
is_public public_facing = true
is_public _ = false

abbrev pub is_private : ExposureMode → Bool
is_private only_private = true
is_private _ = false

abbrev pub is_authenticated : ExposureMode → Bool
is_authenticated authenticated = true
is_authenticated _ = false

abbrev pub is_denied : AccessMode → Bool
is_denied denied = true
is_denied _ = false

abbrev pub is_indexed : IndexingMode → Bool
is_indexed indexed = true
is_indexed non_indexed = false

abbrev pub is_open : Sensitivity → Bool
is_open open_data = true
is_open _ = false

abbrev pub is_secret : Sensitivity → Bool
is_secret secret = true
is_secret _ = false

abbrev pub is_sensitive : Sensitivity → Bool
is_sensitive sensitive = true
is_sensitive secret = true
is_sensitive _ = false

pub record Capability : Type 0 where
  pub name : String
  pub permissions : List String

-- a capability with no permissions supports every one
unfoldable pub supports : Capability → String → Bool
supports cap permission = mem permission cap.permissions || is_nil cap.permissions

pub record InventoryItem : Type 0 where
  pub id : String
  pub kind : String
  pub name : String
  pub enabled : Bool
  pub indexing : IndexingMode
  pub access : AccessMode
  pub exposure : ExposureMode
  pub sensitivity : Sensitivity
  pub capabilities : List Capability
  pub owner : Option String

unfoldable pub has_capability : InventoryItem → String → Bool
has_capability item name = any (λ cap. cap.name == name) item.capabilities

unfoldable pub supports_permission : InventoryItem → String → Bool
unfolding supports
supports_permission item permission = any (λ cap. supports cap permission) item.capabilities

unfoldable pub is_indexable : InventoryItem → Bool
is_indexable item = item.enabled && is_indexed item.indexing

unfoldable pub is_usable : InventoryItem → Bool
is_usable item = item.enabled && not (is_denied item.access)

-- `ValueError`, and the `KeyError` of a look-up
pub data InventoryError : Type 0 where
  id_required kind_required sensitive_public denied_public secret_indexed : InventoryError
  already_exists unknown_item : String → InventoryError

unfoldable pub validate : InventoryItem → Result InventoryError (Unit {0})
validate item =
    if is_empty item.id
    then raise id_required
    else if is_empty item.kind
    then raise kind_required
    else if is_public item.exposure && is_sensitive item.sensitivity
    then raise sensitive_public
    else if is_public item.exposure && is_denied item.access
    then raise denied_public
    else if is_indexed item.indexing && is_secret item.sensitivity
    then raise secret_indexed
    else ok tt

abbrev pub InventoryRegistry : Type 0
InventoryRegistry = Dict String InventoryItem

abbrev pub Changed : Type 0
Changed = InventoryRegistry × Result InventoryError (Unit {0})

unfoldable pub add : InventoryRegistry → InventoryItem → Changed
add items item = elim (validate item) [
  | raise e ↦ (items, raise e)
  | ok _ ↦
      if is_some (get item.id items)
      then (items, raise (already_exists item.id))
      else (put item.id item items, ok tt)
]

unfoldable pub upsert : InventoryRegistry → InventoryItem → Changed
upsert items item = elim (validate item) [
  | raise e ↦ (items, raise e)
  | ok _ ↦ (put item.id item items, ok tt)
]

unfoldable pub find : InventoryRegistry → String → Result InventoryError InventoryItem
find items id = elim (get id items) [ none ↦ raise (unknown_item id) | some item ↦ ok item ]

-- The item is changed in place, and only then validated.
unfoldable pub set_enabled : InventoryRegistry → String → Bool → Changed
set_enabled items id enabled = elim (get id items) [
  | none ↦ (items, raise (unknown_item id))
  | some item ↦
      let changed = record item { enabled = enabled } in (put id changed items, validate changed)
]

unfoldable pub validate_all : InventoryRegistry → Result InventoryError (Unit {0})
validate_all [] = ok tt
validate_all ((id, item) ∷ rest) = do validate item; validate_all rest

-- One call that changes the registry.
pub data Edit : Type 0 where
  adds upserts : InventoryItem → Edit
  sets_enabled : String → Bool → Edit

unfoldable pub step : InventoryRegistry → Edit → Changed
unfolding add upsert set_enabled
step items (adds item) = add items item
step items (upserts item) = upsert items item
step items (sets_enabled id enabled) = set_enabled items id enabled

unfoldable pub run : InventoryRegistry → List Edit → InventoryRegistry
run items [] = items
run items (c ∷ cs) = run (step items c).0 cs
