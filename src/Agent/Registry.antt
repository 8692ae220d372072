-- ===== src/Agent/Registry.antt =====
-- node_agent.py: NodeAgentRegistry, and NodeActionDispatcher, which makes requests of a plan. What the bus
-- does with a publication is a parameter: it may raise. The identifier of a request or a result is drawn
-- at random; `ids` are those drawn for the requests of a call, `fresh` the one of a result.
use cyber_hive.Prelude.{
  if◌then◌else◌, is_some, string_eq, nat_eq, length, Result, ok, raise, is_empty, ℕ, ◌+◌, String,
  Bool, false, Option, none, some, List, [], ◌∷◌, ◌++◌, map,
}
use cyber_hive.Prelude.Dict.{Dict, get, put}
use cyber_hive.Plan.Metadata.{Value, null, text, number, sequence, Items, nil, cons, end, field}
use cyber_hive.Agent.Local.{LocalNodeAgent, handle}
use cyber_hive.Agent.Node.{
  Python, prewarm_model, data_move, action_eq, NodeAgentError, already_registered, not_registered,
  publish_failed, NodeDescriptor, AgentActionRequest, AgentActionResult,
}
use cyber_hive.Plan.{DataMove, PrewarmPlan, OrchestrationPlan}

pub record NodeAgentRegistry : Type 0 where
  pub runtime_bus : Option (AgentActionResult → Bool)
  pub agents : Dict String LocalNodeAgent

-- `NodeAgentRegistry.__init__`
unfoldable pub new_registry : Option (AgentActionResult → Bool) → NodeAgentRegistry
new_registry bus = record { runtime_bus = bus; agents = [] }

unfoldable pub upsert : NodeAgentRegistry → LocalNodeAgent → NodeAgentRegistry
upsert g a = record g { agents = put a.descriptor.id a g.agents }

unfoldable pub register :
    NodeAgentRegistry → LocalNodeAgent → NodeAgentRegistry × Result NodeAgentError (Unit {0})
unfolding upsert
register g a =
    if is_some (get a.descriptor.id g.agents)
    then (g, raise (already_registered a.descriptor.id))
    else (upsert g a, ok tt)

abbrev values : Dict String LocalNodeAgent → List LocalNodeAgent
values [] = []
values ((k, a) ∷ d) = a ∷ values d

unfoldable pub descriptors : NodeAgentRegistry → List NodeDescriptor
descriptors g = map (λ a. a.descriptor) (values g.agents)

-- `_publish` of a bus that may be None: whether it raises
unfoldable pub publish_fails : Option (AgentActionResult → Bool) → AgentActionResult → Bool
publish_fails none result = false
publish_fails (some fails) result = fails result

-- `dispatch`; the agent is an object that handles the request in its place
unfoldable pub dispatch :
    Python
    → NodeAgentRegistry
    → AgentActionRequest
    → String
    → ℕ
    → NodeAgentRegistry × Result NodeAgentError AgentActionResult
unfolding handle publish_fails
dispatch py g r fresh now = elim (get r.target_node g.agents) [
  | none ↦ (g, raise (not_registered r.target_node))
  | some a ↦
      let (a', handled) = handle py a r fresh now in
      let g' = record g { agents = put r.target_node a' g.agents } in
      elim handled [
        | raise e ↦ (g', raise e)
        | ok result ↦
            if publish_fails g.runtime_bus result
            then (g', raise publish_failed)
            else (g', ok result)
      ]
]

-- `dispatch_many`, which stops at the first exception
unfoldable pub dispatch_many :
    Python
    → NodeAgentRegistry
    → List (AgentActionRequest × String)
    → ℕ
    → NodeAgentRegistry × Result NodeAgentError (List AgentActionResult)
unfolding dispatch
dispatch_many py g [] now = (g, ok [])
dispatch_many py g ((r, fresh) ∷ rs) now =
    let (g', first) = dispatch py g r fresh now in
    let (g'', later) = dispatch_many py g' rs now in
    elim first [
      | raise e ↦ (g', raise e)
      | ok result ↦ elim later [
        | raise e ↦ (g'', raise e)
        | ok results ↦ (g'', ok (result ∷ results))
      ]
    ]

abbrev pub text_items : List String → Items
text_items [] = nil
text_items (s ∷ ss) = cons (text s) (text_items ss)

-- `None if value is None else value`
abbrev pub or_null : Option String → Value
or_null none = null
or_null (some s) = text s

-- what the caller of `build_requests` sets for every request
pub record RequestOptions : Type 0 where
  pub is_dry_run : Bool
  pub approval_tokens : List String
  pub requested_by : String

unfoldable pub prewarm_request :
    PrewarmPlan → RequestOptions → String → String → ℕ → AgentActionRequest
prewarm_request p o correlation id now = record {
  target_node = p.target_node;
  action = prewarm_model;
  payload = field "model_id" (text p.model_id) (
      field "reason" (text p.reason) (
        field "priority" (number p.priority)
          (field "actions" (sequence (text_items p.actions)) end)));
  is_dry_run = o.is_dry_run;
  approval_tokens = o.approval_tokens;
  requested_by = o.requested_by;
  correlation_id = some correlation;
  id = id;
  created_at = now;
}

unfoldable pub move_request :
    String → DataMove → RequestOptions → String → String → ℕ → AgentActionRequest
move_request target m o correlation id now = record {
  target_node = target;
  action = data_move;
  payload = field "object_id" (text m.object_id) (
      field "action" (text m.action) (
        field "from_tier" (or_null m.from_tier) (
          field "to_tier" (text m.to_tier) (
            field "replicas" (number m.replicas) (
              field "target_devices" (sequence (text_items m.target_devices))
                (field "reason" (text m.reason) end))))));
  is_dry_run = o.is_dry_run;
  approval_tokens = o.approval_tokens;
  requested_by = o.requested_by;
  correlation_id = some correlation;
  id = id;
  created_at = now;
}

-- The `n`th request gets the identifier `ids n`.
unfoldable pub prewarm_requests :
    List PrewarmPlan → RequestOptions → String → (ℕ → String) → ℕ → ℕ → List AgentActionRequest
unfolding prewarm_request
prewarm_requests [] o correlation ids n now = []
prewarm_requests (p ∷ ps) o correlation ids n now =
    prewarm_request p o correlation (ids n) now ∷ prewarm_requests ps o correlation ids (n + 1) now

unfoldable pub move_requests :
    String
    → List DataMove
    → RequestOptions
    → String
    → (ℕ → String)
    → ℕ
    → ℕ
    → List AgentActionRequest
unfolding move_request
move_requests target [] o correlation ids n now = []
move_requests target (m ∷ ms) o correlation ids n now =
    move_request target m o correlation (ids n) now
    ∷ move_requests target ms o correlation ids (n + 1) now

-- the target of the route, if it is not empty
unfoldable pub route_target : OrchestrationPlan → Option String
route_target p = elim p.route_decision [
  | none ↦ none
  | some decision ↦ elim decision.target_node [
    | none ↦ none
    | some node ↦ if is_empty node then none else some node
  ]
]

unfoldable pub build_requests :
    OrchestrationPlan → RequestOptions → (ℕ → String) → ℕ → List AgentActionRequest
unfolding prewarm_requests move_requests route_target
build_requests p o ids now =
    let moves : List AgentActionRequest = elim (route_target p) [
      | none ↦ []
      | some target ↦ move_requests target p.data_moves o p.id ids (length p.prewarm_plans) now
    ] in
    prewarm_requests p.prewarm_plans o p.id ids 0 now ++ moves

abbrev with_ids : List AgentActionRequest → (ℕ → String) → ℕ → List (AgentActionRequest × String)
with_ids [] ids n = []
with_ids (r ∷ rs) ids n = (r, ids n) ∷ with_ids rs ids (n + 1)

unfoldable pub dispatch_plan :
    Python
    → NodeAgentRegistry
    → OrchestrationPlan
    → RequestOptions
    → (ℕ → String)
    → (ℕ → String)
    → ℕ
    → NodeAgentRegistry × Result NodeAgentError (List AgentActionResult)
unfolding dispatch_many build_requests
dispatch_plan py g p o ids fresh now =
    dispatch_many py g (with_ids (build_requests p o ids now) fresh 0) now
