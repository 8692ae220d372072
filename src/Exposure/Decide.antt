-- ===== src/Exposure/Decide.antt =====
-- exposure_gateway.py: when a request is allowed, and when a grant gives access.
use cyber_hive.Prelude.{
  nat_eq, string_eq, mem, ◌≤◌, ◌<◌, String, ◌≡◌, refl, ◌↔◌, true, false, none, List, [], ◌∷◌, arith,
  eq_iff, eq_refl,
}
use cyber_hive.Inventory.{
  is_public, is_private, is_authenticated, is_denied, is_open, InventoryItem, supports_permission,
}
use cyber_hive.Exposure.{day, ExposureRequest, unsupported, denied_download, evaluate_request}

pub record Permitted (request : ExposureRequest) (item : InventoryItem) : Type 0 where
  pub enabled : item.enabled ≡ true
  pub access : is_denied item.access ≡ false
  pub ttl_positive : 0 < request.ttl_seconds
  pub ttl_limit : request.ttl_seconds ≤ day
  pub public_item :
      is_public request.requested_exposure ≡ true
      → (is_public item.exposure ≡ true) × (is_open item.sensitivity ≡ true)
  pub private_item :
      is_private item.exposure ≡ true → is_authenticated request.requested_exposure ≡ true
  pub supported :
      (permission : String)
      → mem permission request.permissions ≡ true
      → supports_permission item permission ≡ true
  pub no_raw_download : denied_download item request ≡ false

unsupported-none :
    (item : InventoryItem) (ps : List String) (p : String)
    → unsupported item ps ≡ none
    → mem p ps ≡ true
    → supports_permission item p ≡ true
unfolding unsupported mem
unsupported-none item [] p h m = cc
unsupported-none item (q ∷ qs) p h m = ground (arith, unsupported-none item qs p, eq_iff q p)

none-unsupported :
    (item : InventoryItem) (ps : List String)
    → ((p : String) → mem p ps ≡ true → supports_permission item p ≡ true)
    → unsupported item ps ≡ none
unfolding unsupported mem
none-unsupported item [] h = refl
none-unsupported item (q ∷ qs) h =
    ground (arith, h q, eq_refl q, none-unsupported item qs (λ p m. h p (ground arith)))

-- A request is allowed exactly when the item is enabled and not denied, the time to live is positive
-- and at most a day, public exposure is asked only of an item that is public in both respects, a
-- private item only through authentication, each permission is supported, and no raw download of a
-- camera, microphone or sensor is asked.
pub evaluate_request-Permitted :
    (request : ExposureRequest) (item : InventoryItem)
    → (evaluate_request request item ≡ none) ↔ Permitted request item
unfolding evaluate_request
evaluate_request-Permitted request item = (
  λ h. record {
    enabled = ground arith;
    access = ground arith;
    ttl_positive = ground arith;
    ttl_limit = ground arith;
    public_item = λ p. (ground arith, ground arith);
    private_item = λ p. ground arith;
    supported = λ p. unsupported-none item request.permissions p (ground arith);
    no_raw_download = ground arith;
  },
  λ v. rw (none-unsupported item request.permissions v.supported) (
      ground (
        arith, v.enabled, v.access, v.ttl_positive, v.ttl_limit, v.public_item, v.private_item,
        v.no_raw_download,
      )),
)
