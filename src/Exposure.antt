-- ===== src/Exposure.antt =====
-- exposure_gateway.py: scoped, audited and expiring grants on inventory items.
-- Instants are microseconds since the epoch.
pub mod Decide
pub mod Grants
use Prim.Native.String.{◌++◌ as str_append}
use cyber_hive.Prelude.{
  ltb, leb, if◌then◌else◌, ◌==◌, nat_eq, string_eq, length, mem, Result, ok, raise, is_empty, ℕ,
  ◌+◌, ◌-◌, ◌*◌, String, Bool, true, false, ◌&&◌, ◌||◌, not, Option, none, some, List, [], ◌∷◌,
  ◌++◌,
}
use cyber_hive.Prelude.Dict.{Dict, get, put}
use cyber_hive.Inventory.{
  ExposureMode, is_public, is_private, is_authenticated, is_denied, is_open, InventoryItem,
  supports_permission, InventoryRegistry,
}

abbrev pub second : ℕ
second = 1000000

-- `24 * 3600` seconds
abbrev pub day : ℕ
day = 86400

pub record ExposureRequest : Type 0 where
  pub resource_id : String
  pub subject : String
  pub permissions : List String
  pub ttl_seconds : ℕ
  pub reason : String
  pub allow_recording : Bool
  pub allow_download : Bool
  pub requested_exposure : ExposureMode

pub record ExposureGrant : Type 0 where
  pub id : String
  pub resource_id : String
  pub subject : String
  pub permissions : List String
  pub created_at : ℕ
  pub expires_at : ℕ
  pub allow_recording : Bool
  pub allow_download : Bool
  pub direct_device_access : Bool
  pub revoked : Bool
  pub audit : List String

unfoldable pub is_active : ExposureGrant → ℕ → Bool
is_active grant now = not grant.revoked && ltb now grant.expires_at

-- `none` allows; `some reason` denies.
abbrev pub Denial : Type 0
Denial = Option String

unfoldable pub unsupported : InventoryItem → List String → Denial
unsupported resource [] = none
unsupported resource (permission ∷ rest) =
    let later = unsupported resource rest in
    if supports_permission resource permission
    then later
    else some (str_append "unsupported permission: " permission)

unfoldable pub denied_download : InventoryItem → ExposureRequest → Bool
denied_download resource request =
    request.allow_download
    && ((resource.kind == "camera")
        || (resource.kind == "microphone")
        || (resource.kind == "sensor"))

unfoldable pub evaluate_request : ExposureRequest → InventoryItem → Denial
evaluate_request request resource =
    if not resource.enabled
    then some "resource is disabled"
    else if is_denied resource.access
    then some "resource access is denied"
    else if leb request.ttl_seconds 0
    then some "ttl must be positive"
    else if ltb day request.ttl_seconds
    then some "ttl exceeds 24h MVP safety limit"
    else if is_public request.requested_exposure && not (is_public resource.exposure)
    then some "resource is not marked public"
    else if is_public request.requested_exposure && not (is_open resource.sensitivity)
    then some "only public sensitivity resources can be public"
    else if is_private resource.exposure && not (is_authenticated request.requested_exposure)
    then some "private resources require authenticated gateway exposure"
    else elim (unsupported resource request.permissions) [
      | some reason ↦ some reason
      | none ↦
          if denied_download resource request
          then some "raw device downloads are not allowed by default"
          else none
    ]

pub record ExposureGateway : Type 0 where
  pub inventory : InventoryRegistry
  pub grants : Dict String ExposureGrant

pub data ExposureError : Type 0 where
  unknown_resource permission_denied : String → ExposureError

abbrev pub or_default : String → String
or_default reason = if is_empty reason then "no reason provided" else reason

-- The grant that `create_grant` makes; `token` is the random part of its id.
unfoldable pub new_grant : ExposureRequest → String → ℕ → ExposureGrant
new_grant request token now = record {
  id = str_append "exp_" token;
  resource_id = request.resource_id;
  subject = request.subject;
  permissions = request.permissions;
  created_at = now;
  expires_at = now + second * request.ttl_seconds;
  allow_recording = request.allow_recording;
  allow_download = request.allow_download;
  direct_device_access = false;
  revoked = false;
  audit = str_append "created:" (or_default request.reason) ∷ [];
}

unfoldable pub create_for :
    ExposureGateway
    → ExposureRequest
    → String
    → ℕ
    → Denial
    → ExposureGateway × Result ExposureError ExposureGrant
create_for g request token now (some reason) = (g, raise (permission_denied reason))
create_for g request token now none =
    let grant = new_grant request token now in
    (record g { grants = put grant.id grant g.grants }, ok grant)

unfoldable pub create_grant :
    ExposureGateway
    → ExposureRequest
    → String
    → ℕ
    → ExposureGateway × Result ExposureError ExposureGrant
unfolding create_for
create_grant g request token now = elim (get request.resource_id g.inventory) [
  | none ↦ (g, raise (unknown_resource request.resource_id))
  | some item ↦ create_for g request token now (evaluate_request request item)
]

-- The first test of `can_access` that fails.
unfoldable pub access_denial : Option ExposureGrant → String → String → ℕ → Denial
unfolding is_active
access_denial none subject permission now = some "unknown grant"
access_denial (some grant) subject permission now =
    if not (is_active grant now)
    then some "grant is expired or revoked"
    else if not (grant.subject == subject)
    then some "subject mismatch"
    else if not (mem permission grant.permissions)
    then some "permission not in grant"
    else none

-- The grant is audited in place.
unfoldable pub audit_grant : ExposureGateway → String → String → ExposureGateway
audit_grant g grant_id line = elim (get grant_id g.grants) [
  | none ↦ g
  | some grant ↦ record g {
    grants = put grant_id (record grant { audit = grant.audit ++ line ∷ [] }) g.grants;
  }
]

unfoldable pub can_access :
    ExposureGateway → String → String → String → ℕ → ExposureGateway × Denial
unfolding access_denial audit_grant
can_access g grant_id subject permission now =
    elim (access_denial (get grant_id g.grants) subject permission now) [
      | some reason ↦ (g, some reason)
      | none ↦ (
        audit_grant g grant_id
            (str_append "access:" (str_append subject (str_append ":" permission))),
        none,
      )
    ]

unfoldable pub revoke : ExposureGateway → String → String → ExposureGateway
revoke g grant_id reason = elim (get grant_id g.grants) [
  | none ↦ g
  | some grant ↦ record g {
    grants =
        put grant_id
          (record grant {
            revoked = true;
            audit = grant.audit ++ str_append "revoked:" (or_default reason) ∷ [];
          })
          g.grants;
  }
]

-- the loop over the items: what is not active goes
unfoldable pub drop_inactive : Dict String ExposureGrant → ℕ → Dict String ExposureGrant
drop_inactive [] now = []
drop_inactive ((id, grant) ∷ rest) now =
    let later = drop_inactive rest now in if is_active grant now then (id, grant) ∷ later else later

unfoldable pub cleanup_expired : ExposureGateway → ℕ → ExposureGateway × ℕ
unfolding drop_inactive is_active
cleanup_expired g now =
    let kept = drop_inactive g.grants now in
    (record g { grants = kept }, length g.grants - length kept)

pub data Call : Type 0 where
  creates : ExposureRequest → String → ℕ → Call
  accesses : String → String → String → ℕ → Call
  revokes : String → String → Call
  cleans : ℕ → Call

unfoldable pub step : ExposureGateway → Call → ExposureGateway
step g (creates request token now) = (create_grant g request token now).0
step g (accesses id subject permission now) = (can_access g id subject permission now).0
step g (revokes id reason) = revoke g id reason
step g (cleans now) = (cleanup_expired g now).0

unfoldable pub run : ExposureGateway → List Call → ExposureGateway
run g [] = g
run g (c ∷ cs) = run (step g c) cs
