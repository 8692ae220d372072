-- ===== src/Approval.antt =====
-- approval_workflow.py: the broker of approval requests. The readings of the clock within one call are
-- one instant, `now`; an identifier is the fresh random one that the code draws.
pub mod Keeps
pub mod Status
pub mod Closed
pub mod Context
use cyber_hive.Prelude.{
  leb, if◌then◌else◌, nat_eq, string_eq, is_nil, keep, mem, subset, sorted_set, Result, ok, raise,
  is_empty, ℕ, ◌+◌, ◌*◌, String, Bool, true, false, ◌&&◌, not, Option, none, some, List, [], ◌∷◌,
  ◌++◌,
}
use cyber_hive.Prelude.Dict.{Dict, get, put}
use cyber_hive.Plan.Metadata.{text, Fields, set_field}
use cyber_hive.Policy.{
  require_approval, outcome_beq, PolicyContext, PolicyDecision, required_approvals,
}

pub data ApprovalStatus : Type 0 where
  open_request partially_approved approved denied expired cancelled : ApprovalStatus

-- what `_get_mutable` lets change
abbrev pub is_open : ApprovalStatus → Bool
is_open open_request = true
is_open partially_approved = true
is_open _ = false

abbrev pub is_approved : ApprovalStatus → Bool
is_approved approved = true
is_approved _ = false

-- the statuses in `expirable`
abbrev pub is_expirable : ApprovalStatus → Bool
is_expirable open_request = true
is_expirable partially_approved = true
is_expirable approved = true
is_expirable _ = false

pub data ApprovalError : Type 0 where
  not_require_approval ttl_not_positive no_approval_tokens token_list_empty : ApprovalError
  tokens_not_required : List String → ApprovalError
  request_not_found : String → ApprovalError
  not_approved request_closed : ApprovalStatus → ApprovalError
  subject_mismatch plan_id_missing plan_id_mismatch : ApprovalError
  request_id_missing request_id_mismatch : ApprovalError

pub record ApprovalGrant : Type 0 where
  pub approver : String
  pub tokens : List String
  pub reason : String
  pub created_at : ℕ

pub record ApprovalRequest : Type 0 where
  pub id : String
  pub policy_decision_id : String
  pub subject : String
  pub requested_by : String
  pub required_tokens : List String
  pub created_at : ℕ
  pub expires_at : ℕ
  pub status : ApprovalStatus
  pub granted_tokens : List String
  pub grants : List ApprovalGrant
  pub reason : String
  pub metadata : Fields

unfoldable pub missing_tokens : ApprovalRequest → List String
missing_tokens r = keep (λ token. not (mem token r.granted_tokens)) r.required_tokens

unfoldable pub is_expired : ApprovalRequest → ℕ → Bool
is_expired r now = leb r.expires_at now

-- a line of the journal file without its time stamp
pub record JournalRow : Type 0 where
  pub event_type : String
  pub request : ApprovalRequest

pub record ApprovalBroker : Type 0 where
  pub journal : Option (List JournalRow)
  pub requests : Dict String ApprovalRequest

-- `ApprovalBroker.__init__`; a journal starts with no rows
unfoldable pub new_broker : Option (List JournalRow) → ApprovalBroker
new_broker journal = record { journal = journal; requests = [] }

abbrev pub second : ℕ
second = 1000000

abbrev pub Reply : Type 0
Reply = ApprovalBroker × Result ApprovalError ApprovalRequest

unfoldable pub write_journal :
    Option (List JournalRow) → String → ApprovalRequest → Option (List JournalRow)
write_journal none event r = none
write_journal (some rows) event r = some (rows ++ record { event_type = event; request = r } ∷ [])

-- `self._requests[id] = request` and its line in the journal
unfoldable pub store : ApprovalBroker → String → String → ApprovalRequest → ApprovalBroker
unfolding write_journal
store b id event r = record {
  journal = write_journal b.journal event r;
  requests = put id r b.requests;
}

unfoldable pub new_request :
    PolicyDecision → String → ℕ → String → Fields → String → ℕ → ApprovalRequest
new_request d requested_by ttl reason metadata id now = record {
  id = id;
  policy_decision_id = d.id;
  subject = d.subject;
  requested_by = requested_by;
  required_tokens = required_approvals d;
  created_at = now;
  expires_at = now + second * ttl;
  status = open_request;
  granted_tokens = [];
  grants = [];
  reason = reason;
  metadata = metadata;
}

unfoldable pub create_request :
    ApprovalBroker → PolicyDecision → String → ℕ → String → Fields → String → ℕ → Reply
unfolding store new_request
create_request b d requested_by ttl reason metadata id now =
    if not (outcome_beq d.outcome require_approval)
    then (b, raise not_require_approval)
    else if leb ttl 0
    then (b, raise ttl_not_positive)
    else if is_nil (required_approvals d)
    then (b, raise no_approval_tokens)
    else let r = new_request d requested_by ttl reason metadata id now in
      (store b r.id "approval.created" r, ok r)

unfoldable pub refresh_expiry :
    ApprovalBroker → ApprovalRequest → ℕ → ApprovalBroker × ApprovalRequest
unfolding is_expired store
refresh_expiry b r now =
    let updated = record r { status = expired } in
    if is_expirable r.status && is_expired r now
    then (store b r.id "approval.expired" updated, updated)
    else (b, r)

unfoldable pub get_request : ApprovalBroker → String → ℕ → Reply
get_request b id now = elim (get id b.requests) [
  | none ↦ (b, raise (request_not_found id))
  | some r ↦ let (b', r') = refresh_expiry b r now in (b', ok r')
]

abbrev pub require_open : ApprovalBroker → ApprovalRequest → Reply
require_open b r = if is_open r.status then (b, ok r) else (b, raise (request_closed r.status))

-- go on with the request that a step returned
infixl 5 ◌>>>◌
abbrev pub ◌>>>◌ : Reply → (ApprovalBroker → ApprovalRequest → Reply) → Reply
◌>>>◌ (b, ok r) f = f b r
◌>>>◌ (b, raise e) f = (b, raise e)

unfoldable pub get_mutable : ApprovalBroker → String → ℕ → Reply
get_mutable b id now = get_request b id now >>> require_open

-- the request with the grant of `wanted`, a list that is already sorted and without repetition
unfoldable pub granted : ApprovalRequest → List String → String → String → ℕ → ApprovalRequest
granted r wanted approver reason now =
    let tokens = sorted_set (r.granted_tokens ++ wanted) in
    record r {
      status = if subset r.required_tokens tokens then approved else partially_approved;
      granted_tokens = tokens;
      grants =
          r.grants
          ++ record { approver = approver; tokens = wanted; reason = reason; created_at = now }
            ∷ [];
    }

unfoldable pub approve_with :
    String → List String → String → String → ℕ → ApprovalBroker → ApprovalRequest → Reply
unfolding granted store
approve_with id wanted approver reason now b r =
    if is_nil wanted
    then (b, raise token_list_empty)
    else let invalid = keep (λ token. not (mem token r.required_tokens)) wanted in
      if not (is_nil invalid)
      then (b, raise (tokens_not_required invalid))
      else let updated = granted r wanted approver reason now in
        (store b id "approval.approved" updated, ok updated)

-- `tokens if tokens is not None else request.missing_tokens()`
unfoldable pub wanted_tokens : Option (List String) → ApprovalRequest → List String
unfolding missing_tokens
wanted_tokens none r = sorted_set (missing_tokens r)
wanted_tokens (some tokens) r = sorted_set tokens

unfoldable pub approve :
    ApprovalBroker → String → String → Option (List String) → String → ℕ → Reply
unfolding approve_with
approve b id approver tokens reason now = get_mutable b id now >>> λ b' r.
    approve_with id (wanted_tokens tokens r) approver reason now b' r

unfoldable pub denied_request : ApprovalRequest → String → String → ℕ → ApprovalRequest
denied_request r approver reason now = record r {
  status = denied;
  grants =
      r.grants
      ++ record { approver = approver; tokens = []; reason = reason; created_at = now } ∷ [];
}

unfoldable pub deny_request : ApprovalBroker → String → String → String → ℕ → Reply
unfolding store denied_request
deny_request b id approver reason now = get_mutable b id now >>> λ b' r.
    let updated = denied_request r approver reason now in
    (store b' id "approval.denied" updated, ok updated)

unfoldable pub cancel : ApprovalBroker → String → String → ℕ → Reply
unfolding store
cancel b id reason now = get_mutable b id now >>> λ b' r.
    let updated = record r {
      status = cancelled;
      reason = if is_empty reason then r.reason else reason;
    } in
    (store b' id "approval.cancelled" updated, ok updated)

-- Each request is refreshed; the open ones are returned.
unfoldable pub list_from :
    Dict String ApprovalRequest → ApprovalBroker → ℕ → ApprovalBroker × List ApprovalRequest
list_from [] b now = (b, [])
list_from ((k, r) ∷ rest) b now =
    let (b', r') = refresh_expiry b r now in
    let (b'', later) = list_from rest b' now in
    (b'', if is_open r'.status then r' ∷ later else later)

unfoldable pub list_open : ApprovalBroker → ℕ → ApprovalBroker × List ApprovalRequest
unfolding list_from
list_open b now = list_from b.requests b now

unfoldable pub approved_context : PolicyContext → ApprovalRequest → PolicyContext
unfolding set_field
approved_context base r = record base {
  approvals = sorted_set (base.approvals ++ r.granted_tokens);
  metadata = set_field "approval_request_id" (text r.id) base.metadata;
}

unfoldable pub context_with_approvals :
    ApprovalBroker
    → PolicyContext
    → String
    → ℕ
    → ApprovalBroker × Result ApprovalError PolicyContext
unfolding approved_context
context_with_approvals b base id now =
    let (b', r) = get_request b id now in
    elim r [
      | raise e ↦ (b', raise e)
      | ok request ↦
          if is_approved request.status
          then (b', ok (approved_context base request))
          else (b', raise (not_approved request.status))
    ]

-- One call on the broker.
pub data Call : Type 0 where
  creates : PolicyDecision → String → ℕ → String → Fields → String → ℕ → Call
  approves : String → String → Option (List String) → String → ℕ → Call
  denies : String → String → String → ℕ → Call
  cancels : String → String → ℕ → Call
  gets : String → ℕ → Call
  lists : ℕ → Call
  asks_context : PolicyContext → String → ℕ → Call

unfoldable pub step : ApprovalBroker → Call → ApprovalBroker
step b (creates d requested_by ttl reason metadata id now) =
    (create_request b d requested_by ttl reason metadata id now).0
step b (approves id approver tokens reason now) = (approve b id approver tokens reason now).0
step b (denies id approver reason now) = (deny_request b id approver reason now).0
step b (cancels id reason now) = (cancel b id reason now).0
step b (gets id now) = (get_request b id now).0
step b (lists now) = (list_open b now).0
step b (asks_context base id now) = (context_with_approvals b base id now).0

unfoldable pub run : ApprovalBroker → List Call → ApprovalBroker
run b [] = b
run b (c ∷ cs) = run (step b c) cs
