-- ===== src/Examples/Requests.antt =====
-- approval_workflow.py at concrete inputs: two approvals by two approvers, and a denial.
use cyber_hive.Prelude.{
  nat_eq, string_eq, keep, mem, subset, insert_sorted, sorted_set, ok, is_ok, String, ◌≡◌, refl,
  false, none, some, List, [], ◌∷◌,
}
use cyber_hive.Prelude.Dict.{get, put, Distinct}
use cyber_hive.Plan.Metadata.{end}
use cyber_hive.Approval.{
  is_expirable, ApprovalRequest, missing_tokens, is_expired, ApprovalBroker, store, new_request,
  create_request, refresh_expiry, get_request, get_mutable, granted, approve_with, wanted_tokens,
  approve, denied_request, deny_request, cancel, approved_context, context_with_approvals, Call,
  creates, approves, gets, step, run,
}
use cyber_hive.Approval.Keeps.{Holds}
use cyber_hive.Approval.Status.{IsConsistent, run-IsConsistent}
use cyber_hive.Approval.Closed.{run-closed}
use cyber_hive.Approval.Context.{Backs, context_with_approvals-Backs}
use cyber_hive.Policy.{
  require_approval, high, PolicyFinding, PolicyDecision, named_approvals, required_approvals,
}
use cyber_hive.Examples.Decisions.{live_context}

abbrev wants : String → PolicyFinding
wants token = record {
  rule_id = "rule";
  outcome = require_approval;
  severity = high;
  reason = "";
  required_approval = some token;
  metadata = end;
}

abbrev two_needed : PolicyDecision
two_needed = record {
  id = "pol_1";
  outcome = require_approval;
  subject = "ann";
  dry_run = false;
  created_at = 5;
  findings = wants "execute.live" ∷ wants "data.move.execute" ∷ [];
  metadata = end;
}

abbrev granting : List Call
granting =
    creates two_needed "ann" 900 "" end "apr_1" 1000000
    ∷ approves "apr_1" "bob" (some ("execute.live" ∷ [])) "" 2000000
    ∷ approves "apr_1" "eve" none "" 3000000
    ∷ []

abbrev broker : ApprovalBroker
broker = record { journal = some []; requests = [] }

run-IsConsistent_example : Holds IsConsistent (run broker granting)
run-IsConsistent_example = run-IsConsistent broker granting tt

abbrev approved_one : ApprovalRequest
approved_one =
    granted
      (granted (new_request two_needed "ann" 900 "" end "apr_1" 1000000) ("execute.live" ∷ []) "bob"
        "" 2000000)
      ("data.move.execute" ∷ []) "eve" "" 3000000

context_made :
    (context_with_approvals (run broker granting) live_context "apr_1" 4000000).1
    ≡ ok (approved_context live_context approved_one)
unfolding run step create_request new_request store put get get_mutable get_request refresh_expiry
    is_expired approve approve_with wanted_tokens missing_tokens granted required_approvals
    named_approvals sorted_set insert_sorted subset mem keep context_with_approvals
context_made = refl

context_with_approvals-Backs_example :
    (r : ApprovalRequest) × (get "apr_1" (run broker granting).requests ≡ some r)
    × Backs live_context (approved_context live_context approved_one) r 4000000
context_with_approvals-Backs_example =
    context_with_approvals-Backs (run broker granting) live_context "apr_1" 4000000
      (approved_context live_context approved_one) (run-IsConsistent broker granting tt)
      context_made

abbrev denied_one : ApprovalRequest
denied_one =
    denied_request (new_request two_needed "ann" 900 "" end "apr_1" 1000000) "bob" "no" 2000000

abbrev denied_broker : ApprovalBroker
denied_broker = record { journal = none; requests = ("apr_1", denied_one) ∷ [] }

denied_own : Holds (λ k r. r.id ≡ k) denied_broker
unfolding denied_request new_request
denied_own = (refl, tt)

denied_found : get "apr_1" denied_broker.requests ≡ some denied_one
unfolding get
denied_found = refl

denied_closed : is_expirable denied_one.status ≡ false
unfolding denied_request
denied_closed = refl

denied-Distinct : Distinct denied_broker.requests
unfolding get
denied-Distinct = (refl, tt)

abbrev later_calls : List Call
later_calls = creates two_needed "ann" 900 "" end "apr_2" 3000000 ∷ gets "apr_1" 4000000 ∷ []

run-closed_example :
    (is_ok (approve (run denied_broker later_calls) "apr_1" "eve" none "" 5000000).1 ≡ false)
    × (is_ok (deny_request (run denied_broker later_calls) "apr_1" "eve" "" 5000000).1 ≡ false)
    × (is_ok (cancel (run denied_broker later_calls) "apr_1" "" 5000000).1 ≡ false)
run-closed_example =
    run-closed denied_broker "apr_1" denied_one later_calls denied-Distinct denied_own denied_found
      denied_closed (refl, (tt, tt)) "eve" "" none 5000000
