-- ===== src/Policy/Exposing.antt =====
-- policy_governance.py: evaluate_exposure_request, and when it allows.
pub mod Exposable
use Prim.Native.String.{◌++◌ as str_append}
use cyber_hive.Prelude.{
  ltb, if◌then◌else◌, nat_eq, string_eq, ℕ, String, ◌&&◌, not, List, [], ◌∷◌, ◌++◌,
}
use cyber_hive.Plan.Metadata.{text, end, field}
use cyber_hive.Policy.{
  high, critical, public_exposure, recording_enable, download_enable, PolicyContext, has_approval,
  PolicyFinding, PolicyDecision, deny_finding, approval_finding, when, PolicyGuard, finalize,
}
use cyber_hive.Exposure.{day, ExposureRequest}
use cyber_hive.Inventory.{
  ExposureMode, only_private, lan, authenticated, public_facing, is_public, is_open, is_secret,
  InventoryItem, supports_permission,
}

unfoldable pub exposure_value : ExposureMode → String
exposure_value only_private = "private"
exposure_value lan = "lan"
exposure_value authenticated = "authenticated"
exposure_value public_facing = "public"

unfoldable pub item_findings : ExposureRequest → InventoryItem → List PolicyFinding
unfolding deny_finding
item_findings request item =
    when (not item.enabled)
      (deny_finding "inventory.disabled" "disabled resources cannot be exposed" critical end)
    ++ (when (is_secret item.sensitivity) (
          deny_finding "exposure.secret.denied"
            "secret resources cannot be exposed through the MVP gateway" critical end)
        ++ when (ltb day request.ttl_seconds) (
            deny_finding "exposure.ttl.max_24h" "exposure ttl exceeds the 24h MVP safety limit"
              critical end))

unfoldable pub public_findings :
    ExposureRequest → InventoryItem → PolicyContext → List PolicyFinding
unfolding deny_finding approval_finding has_approval
public_findings request item ctx =
    if is_public request.requested_exposure
    then when (not (is_open item.sensitivity)) (
        deny_finding "exposure.public.sensitivity"
          "only public-sensitivity resources may request public exposure" critical end)
      ++ when (not (has_approval ctx public_exposure)) (
          approval_finding "exposure.public.requires_approval"
            "public exposure requires explicit approval" public_exposure high end)
    else []

unfoldable pub option_findings : ExposureRequest → PolicyContext → List PolicyFinding
unfolding approval_finding has_approval
option_findings request ctx =
    when (request.allow_recording && not (has_approval ctx recording_enable)) (
      approval_finding "exposure.recording.requires_approval"
        "recording must be explicitly approved" recording_enable high end)
    ++ when (request.allow_download && not (has_approval ctx download_enable)) (
        approval_finding "exposure.download.requires_approval"
          "download must be explicitly approved" download_enable high end)

unfoldable pub permission_findings : InventoryItem → List String → List PolicyFinding
unfolding deny_finding
permission_findings item [] = []
permission_findings item (permission ∷ rest) =
    when (not (supports_permission item permission)) (
      deny_finding "exposure.permission.unsupported"
        (str_append "resource does not support requested permission: " permission) critical
        (field "permission" (text permission) end))
    ++ permission_findings item rest

unfoldable pub exposure_findings :
    ExposureRequest → InventoryItem → PolicyContext → List PolicyFinding
exposure_findings request item ctx =
    item_findings request item
    ++ (public_findings request item ctx
        ++ (option_findings request ctx ++ permission_findings item request.permissions))

unfoldable pub evaluate_exposure_request :
    PolicyGuard
    → ExposureRequest
    → InventoryItem
    → PolicyContext
    → String
    → ℕ
    → PolicyGuard × PolicyDecision
unfolding finalize
evaluate_exposure_request guard request item ctx id now =
    finalize guard ctx (exposure_findings request item ctx)
      (field "resource_id" (text request.resource_id)
        (field "requested_exposure" (text (exposure_value request.requested_exposure)) end))
      id now
