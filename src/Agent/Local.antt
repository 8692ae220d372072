-- ===== src/Agent/Local.antt =====
-- node_agent.py: LocalNodeAgent with its policy and its safety gates.
use Prim.Native.String.{◌++◌ as str_append}
use cyber_hive.Prelude.{
  ltb, if◌then◌else◌, is_some, string_eq, nat_eq, ◌==◌, mem, sorted_set, Result, ok, raise,
  is_empty, ℕ, String, Bool, false, not, Option, none, some, List, [], ◌∷◌, ◌++◌,
}
use cyber_hive.Plan.Metadata.{null, text, number, Fields, get_field}
use cyber_hive.Agent.Node.{
  Python, AgentActionType, health_check, prewarm_model, data_move, cache_prime, noop, action_value,
  action_of, action_eq, AgentActionStatus, dry_run, succeeded, skipped, denied, failed,
  NodeAgentError, descriptor_id_required, request_id_required, target_node_required,
  unsupported_allowed_action, NodeDescriptor, supports_action, AgentActionRequest, ResultMetadata,
  nothing, would_execute, description, warmed, given, AgentActionResult,
}

pub record NodeAgentPolicy : Type 0 where
  pub allow_live_actions : Bool
  pub allow_prewarm : Bool
  pub allow_data_moves : Bool
  pub allow_cache_prime : Bool
  pub max_payload_bytes : ℕ
  pub required_prewarm_token : String
  pub required_data_move_token : String
  pub required_cache_prime_token : String

abbrev pub agent_policy : NodeAgentPolicy
agent_policy = record {
  allow_live_actions = false;
  allow_prewarm = false;
  allow_data_moves = false;
  allow_cache_prime = false;
  max_payload_bytes = 65536;
  required_prewarm_token = "runtime.prewarm.execute";
  required_data_move_token = "data.move.execute";
  required_cache_prime_token = "cache.prime.execute";
}

pub record LocalNodeAgent : Type 0 where
  pub descriptor : NodeDescriptor
  pub policy : NodeAgentPolicy
  pub warmed_models : List String
  pub handled_requests : List String

-- the loop of `_validate_descriptor`
unfoldable pub first_unsupported : List String → Option String
unfolding action_of
first_unsupported [] = none
first_unsupported (a ∷ as_given) =
    let rest = first_unsupported as_given in if is_some (action_of a) then rest else some a

-- `LocalNodeAgent.__init__`
unfoldable pub new_agent :
    NodeDescriptor → Option NodeAgentPolicy → Result NodeAgentError LocalNodeAgent
unfolding first_unsupported
new_agent d policy =
    if is_empty d.id
    then raise descriptor_id_required
    else elim (first_unsupported d.allowed_actions) [
      | some a ↦ raise (unsupported_allowed_action a)
      | none ↦ ok (record {
        descriptor = d;
        policy = elim policy [ none ↦ agent_policy | some p ↦ p ];
        warmed_models = [];
        handled_requests = [];
      })
    ]

abbrev join : List String → String
join [] = ""
join (s ∷ ss) = str_append s (join ss)

-- the switch and the token that a live action needs
unfoldable pub gate : Bool → String → String → List String → Option String
gate allowed disabled token approvals =
    if not allowed
    then some disabled
    else if not (mem token approvals)
    then some (str_append "missing approval token: " token)
    else none

unfoldable pub live_gate : NodeAgentPolicy → AgentActionType → List String → Option String
unfolding gate
live_gate p prewarm_model approvals =
    gate p.allow_prewarm "prewarm disabled by node agent policy" p.required_prewarm_token approvals
live_gate p data_move approvals =
    gate p.allow_data_moves "data moves disabled by node agent policy" p.required_data_move_token
      approvals
live_gate p cache_prime approvals =
    gate p.allow_cache_prime "cache prime disabled by node agent policy"
      p.required_cache_prime_token approvals
live_gate p _ approvals = none

module _ (py : Python) where
  -- `_preflight`: the reason of a denial
  unfoldable pub preflight : LocalNodeAgent → AgentActionRequest → Option String
  unfolding supports_action live_gate
  preflight a r =
      let size = py.json_size r.payload in
      if not (r.target_node == a.descriptor.id)
      then some (join ("request targets " ∷ r.target_node ∷ ", agent is " ∷ a.descriptor.id ∷ []))
      else if not a.descriptor.enabled
      then some "node agent is disabled"
      else if not a.descriptor.healthy
      then some "node agent is unhealthy"
      else if not (supports_action a.descriptor r.action)
      then some (
          join
            ("action " ∷ action_value r.action ∷ " is not allowed on node " ∷ a.descriptor.id ∷ []))
      else if ltb a.policy.max_payload_bytes size
      then some (
          join (
            "payload exceeds max_payload_bytes ("
            ∷ py.str_of (number size)
            ∷ ">"
            ∷ py.str_of (number a.policy.max_payload_bytes)
            ∷ ")"
            ∷ []))
      else if r.is_dry_run
      then none
      else if not a.policy.allow_live_actions
      then some "live node actions disabled by node agent policy"
      else live_gate a.policy r.action r.approval_tokens

  -- `str(payload.get("model_id") or "")`
  unfoldable pub model_id_of : Fields → String
  model_id_of payload = elim (get_field "model_id" payload) [
    | none ↦ ""
    | some (text s) ↦ s
    | some null ↦ ""
    | some v ↦ if py.is_true v then py.str_of v else ""
  ]

-- `set.add`
unfoldable pub add_model : String → List String → List String
add_model m models = if mem m models then models else models ++ m ∷ []

-- `_result`: the request is counted as handled
unfoldable pub answer :
    LocalNodeAgent
    → AgentActionRequest
    → AgentActionStatus
    → String
    → ResultMetadata
    → List String
    → String
    → ℕ
    → LocalNodeAgent × AgentActionResult
answer a r status reason metadata events id now = (
  record a { handled_requests = a.handled_requests ++ r.id ∷ [] },
  record {
    request_id = r.id;
    target_node = a.descriptor.id;
    action = r.action;
    status = status;
    reason = reason;
    created_at = now;
    completed_at = now;
    id = id;
    metadata = metadata;
    events = events;
  },
)

unfoldable pub prewarm :
    LocalNodeAgent → AgentActionRequest → String → String → ℕ → LocalNodeAgent × AgentActionResult
unfolding answer add_model
prewarm a r model id now =
    let models = add_model model a.warmed_models in
    let a' = record a { warmed_models = models } in
    if is_empty model
    then answer a r failed "prewarm_model requires payload.model_id" nothing [] id now
    else answer a' r succeeded (str_append "model prewarm recorded for " model)
        (warmed model (sorted_set models)) (str_append "prewarm:" model ∷ []) id now

-- what `handle` does with an action that is not a dry run
unfoldable pub perform :
    Python
    → LocalNodeAgent
    → AgentActionRequest
    → AgentActionType
    → String
    → ℕ
    → LocalNodeAgent × AgentActionResult
unfolding answer prewarm model_id_of
perform py a r health_check id now =
    answer a r succeeded "node health check succeeded" (description a.descriptor) [] id now
perform py a r noop id now = answer a r skipped "noop action skipped" nothing [] id now
perform py a r prewarm_model id now = prewarm a r (model_id_of py r.payload) id now
perform py a r data_move id now =
    answer a r skipped "data move accepted but physical mover is not invoked by Node Agent MVP"
      (given r.payload) [] id now
perform py a r cache_prime id now =
    answer a r skipped "cache prime accepted but cache backend is not mutated by Node Agent MVP"
      (given r.payload) [] id now

-- `handle` of a request that `_validate_request` lets pass
unfoldable pub carry_out :
    Python
    → LocalNodeAgent
    → AgentActionRequest
    → String
    → ℕ
    → Option String
    → LocalNodeAgent × AgentActionResult
unfolding answer perform
carry_out py a r id now (some denial) = answer a r denied denial nothing [] id now
carry_out py a r id now none =
    if r.is_dry_run
    then answer a r dry_run "dry-run accepted; no node-local side effects executed"
        (would_execute (action_value r.action)) [] id now
    else perform py a r r.action id now

unfoldable pub handle :
    Python
    → LocalNodeAgent
    → AgentActionRequest
    → String
    → ℕ
    → LocalNodeAgent × Result NodeAgentError AgentActionResult
unfolding carry_out
handle py a r id now =
    let (a', result) = carry_out py a r id now (preflight py a r) in
    if is_empty r.id
    then (a, raise request_id_required)
    else if is_empty r.target_node
    then (a, raise target_node_required)
    else (a', ok result)
