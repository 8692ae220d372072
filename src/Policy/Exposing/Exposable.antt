-- ===== src/Policy/Exposing/Exposable.antt =====
-- policy_governance.py: the exposure requests that `evaluate_exposure_request` lets pass.
use mathlib.Core.Path.{subst}
use Prim.Native.String.{◌++◌ as str_append}
use cyber_hive.Prelude.{
  leb, Bool-cases, string_eq, nat_eq, ◌==◌, any, mem, ℕ, ◌≤◌, String, ◌≡◌, refl, ◌↔◌, inl, inr,
  true, false, ◌&&◌, ◌||◌, not, List, [], ◌∷◌, arith, eq_iff, eq_refl,
}
use cyber_hive.Plan.Metadata.{text, end, field}
use cyber_hive.Policy.{
  critical, public_exposure, recording_enable, download_enable, PolicyContext, has_approval,
  is_allowed, worst_outcome, deny_finding, when, PolicyGuard,
}
use cyber_hive.Policy.Outcome.{passes, passes-append, is_allowed-passes}
use cyber_hive.Policy.Exposing.{
  item_findings, public_findings, option_findings, permission_findings, exposure_findings,
  evaluate_exposure_request,
}
use cyber_hive.Exposure.{day, ExposureRequest}
use cyber_hive.Inventory.{is_public, is_open, is_secret, InventoryItem, supports_permission}

-- What a request, its item and its context must have.
pub record Exposable (request : ExposureRequest) (item : InventoryItem) (ctx : PolicyContext)
    : Type 0 where
  pub enabled : item.enabled ≡ true
  pub not_secret : is_secret item.sensitivity ≡ false
  pub short : request.ttl_seconds ≤ day
  pub open_item : is_public request.requested_exposure ≡ true → is_open item.sensitivity ≡ true
  pub approved_public :
      is_public request.requested_exposure ≡ true → has_approval ctx public_exposure ≡ true
  pub recording : request.allow_recording ≡ true → has_approval ctx recording_enable ≡ true
  pub download : request.allow_download ≡ true → has_approval ctx download_enable ≡ true
  pub supported :
      (permission : String)
      → mem permission request.permissions ≡ true
      → supports_permission item permission ≡ true

module _ (request : ExposureRequest) (item : InventoryItem) (ctx : PolicyContext) where
  passes-item_findings :
      passes (item_findings request item)
      ≡ (item.enabled && (not (is_secret item.sensitivity) && leb request.ttl_seconds day))
  unfolding item_findings worst_outcome any
  passes-item_findings = ground arith

  passes-public_findings : passes (public_findings request item ctx) ≡ (
      not (is_public request.requested_exposure)
      || (is_open item.sensitivity && has_approval ctx public_exposure))
  unfolding public_findings worst_outcome any
  passes-public_findings = ground arith

  passes-option_findings : passes (option_findings request ctx) ≡ (
      (not request.allow_recording || has_approval ctx recording_enable)
      && (not request.allow_download || has_approval ctx download_enable))
  unfolding option_findings worst_outcome any
  passes-option_findings = ground arith

  passes-one :
      (permission : String)
      → passes (
          when (not (supports_permission item permission)) (
            deny_finding "exposure.permission.unsupported"
              (str_append "resource does not support requested permission: " permission)
              critical
              (field "permission" (text permission) end)))
        ≡ supports_permission item permission
  unfolding worst_outcome any deny_finding
  passes-one permission = ground arith

  passes-permission_findings :
      (ps : List String)
      → (passes (permission_findings item ps) ≡ true)
        ↔ ((p : String) → mem p ps ≡ true → supports_permission item p ≡ true)
  unfolding permission_findings mem
  passes-permission_findings [] = ((λ h p m. ground arith), (λ h. unfold worst_outcome any in refl))
  passes-permission_findings (q ∷ qs) =
      let (forth, back) = passes-permission_findings qs in
      (
        λ h p m.
            let both : (supports_permission item q && passes (permission_findings item qs)) ≡ true =
              rw (passes-append, passes-one q) at h in
            elim (Bool-cases (q == p)) [
              | inl same ↦
                  let here : supports_permission item q ≡ true = ground arith in
                  subst (λ x. supports_permission item x ≡ true) ((eq_iff q p).0 same) here
              | inr other ↦ forth (ground arith) p (ground arith)
            ],
        λ f.
            rw
              (
                passes-append,
                passes-one q,
                f q (ground (arith, eq_refl q)),
                back (λ p m. f p (ground arith)),
              )
              refl,
      )

-- The guard allows an exposure exactly when the item is enabled and not secret, the time to live is at
-- most a day, public exposure is asked of an item with public data and is approved, recording and
-- download are approved where they are asked for, and the item supports each permission.
pub evaluate_exposure_request-Exposable :
    (guard : PolicyGuard) (request : ExposureRequest) (item : InventoryItem) (ctx : PolicyContext)
    (id : String) (now : ℕ)
    → (is_allowed (evaluate_exposure_request guard request item ctx id now).1 ≡ true)
      ↔ Exposable request item ctx
unfolding evaluate_exposure_request exposure_findings
evaluate_exposure_request-Exposable guard request item ctx id now =
    rw
      (
        is_allowed-passes,
        passes-append,
        passes-append,
        passes-append,
        passes-item_findings request item ctx,
        passes-public_findings request item ctx,
        passes-option_findings request item ctx,
      )
      (
        λ h. record {
          enabled = ground arith;
          not_secret = ground arith;
          short = ground arith;
          open_item = λ p. ground arith;
          approved_public = λ p. ground arith;
          recording = λ r. ground arith;
          download = λ d. ground arith;
          supported =
              (passes-permission_findings request item ctx request.permissions).0 (ground arith);
        },
        λ v.
            let supports : passes (permission_findings item request.permissions) ≡ true =
              (passes-permission_findings request item ctx request.permissions).1 v.supported in
            ground (
              arith, supports, v.enabled, v.not_secret, v.short, v.open_item, v.approved_public,
              v.recording, v.download,
            ),
      )
