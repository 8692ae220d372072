-- ===== src/Examples/Grants.antt =====
-- exposure_gateway.py at concrete inputs: a speaker that is lent for an hour.
use cyber_hive.Policy.{PolicyContext}
use cyber_hive.Plan.Metadata.{end}
use cyber_hive.Prelude.{
  string_eq, nat_eq, any, mem, ◌+◌, ◌*◌, ◌<◌, ◌≡◌, refl, ◌≢◌, ◌↔◌, true, false, none, some, List,
  [], ◌∷◌,
}
use cyber_hive.Prelude.Dict.{get, put, Distinct}
use cyber_hive.Exposure.{
  second, day, ExposureRequest, ExposureGrant, is_active, unsupported, denied_download,
  evaluate_request, ExposureGateway, new_grant, create_for, create_grant, access_denial,
  audit_grant, can_access, revoke, drop_inactive, cleanup_expired, Call, creates, accesses, cleans,
  step, run,
}
use cyber_hive.Exposure.Decide.{Permitted, evaluate_request-Permitted}
use cyber_hive.Exposure.Grants.{run-Bounded, run-Withdrawn}
use cyber_hive.Inventory.{authenticated, supports, supports_permission}
use cyber_hive.Examples.Items.{speaker}

abbrev listen : ExposureRequest
listen = record {
  resource_id = "spk_1";
  subject = "ann";
  permissions = "play" ∷ [];
  ttl_seconds = 3600;
  reason = "party";
  allow_recording = false;
  allow_download = false;
  requested_exposure = authenticated;
}

evaluate_request-Permitted_example :
    (evaluate_request listen speaker ≡ none) ↔ Permitted listen speaker
evaluate_request-Permitted_example = evaluate_request-Permitted listen speaker

abbrev gateway : ExposureGateway
gateway = record { inventory = ("spk_1", speaker) ∷ []; grants = [] }

abbrev asked : List Call
asked = creates listen "a1" 1000000 ∷ cleans 2000000 ∷ []

ann_plays : (can_access (run gateway asked) "exp_a1" "ann" "play" 3000000).1 ≡ none
unfolding run step create_grant create_for new_grant get put evaluate_request unsupported
    denied_download supports_permission supports any mem cleanup_expired drop_inactive is_active
    can_access access_denial audit_grant
ann_plays = refl

run-Bounded_example :
    (grant : ExposureGrant) × (get "exp_a1" (run gateway asked).grants ≡ some grant)
    × (3000000 < grant.created_at + second * day)
    × (grant.direct_device_access ≡ false)
run-Bounded_example = run-Bounded gateway asked "exp_a1" "ann" "play" 3000000 refl ann_plays

asked-Distinct : Distinct (run gateway asked).grants
unfolding run step create_grant create_for new_grant get put evaluate_request unsupported
    denied_download supports_permission supports any mem cleanup_expired drop_inactive is_active
asked-Distinct = (refl, tt)

run-Withdrawn_example :
    (can_access
      (run
        (revoke (run gateway asked) "exp_a1" "over")
        (accesses "exp_a1" "ann" "play" 3000000 ∷ []))
      "exp_a1"
      "ann"
      "play"
      4000000).1
    ≢ none
run-Withdrawn_example =
    run-Withdrawn (run gateway asked) (accesses "exp_a1" "ann" "play" 3000000 ∷ []) "exp_a1" "over"
      "ann" "play" 4000000 asked-Distinct tt

abbrev ann_context : PolicyContext
ann_context = record {
  subject = "ann";
  tenant = none;
  dry_run = true;
  approvals = [];
  requested_permissions = [];
  environment = "local";
  metadata = end;
}
