-- ===== src/Agent/Handlers.antt =====
-- action_handlers.py: the registry of handlers. A handler is a function that may change the world `W` of
-- the node and may raise; `message` is then the text that the registry makes of the exception.
use cyber_hive.Prelude.{
  if◌then◌else◌, is_some, string_eq, nat_eq, Result, ok, raise, ℕ, String, Bool, true, false, ◌&&◌,
  not, none, some, List, [], ◌∷◌, ◌++◌,
}
use cyber_hive.Prelude.Dict.{Dict, get, put, pop}
use Prim.Native.String.{◌++◌ as str_append}
use cyber_hive.Plan.Metadata.{text, Fields, end, field}
use cyber_hive.Agent.Local.{LocalNodeAgent, handle}
use cyber_hive.Agent.Node.{
  Python, AgentActionType, action_value, action_of, action_eq, AgentActionStatus, denied, failed,
  status_value, NodeAgentError, AgentActionRequest, ActionHandlerContext, in_context,
  AgentActionResult,
}

pub data ActionHandlerError : Type 0 where
  handler_registered no_handler : AgentActionType → ActionHandlerError
  action_unsupported : String → ActionHandlerError

-- `str` of the exception
unfoldable pub message : ActionHandlerError → String
message (handler_registered a) =
    str_append "handler already registered for action: " (action_value a)
message (no_handler a) = str_append "no handler registered for action: " (action_value a)
message (action_unsupported s) = str_append "unsupported action: " s

-- `_coerce_action` of a text
unfoldable pub coerce_action : String → Result ActionHandlerError AgentActionType
unfolding action_of
coerce_action s = elim (action_of s) [ none ↦ raise (action_unsupported s) | some a ↦ ok a ]

abbrev pub Handler : Type 0 → Type 0
Handler W = W → AgentActionRequest → ActionHandlerContext → W × Result String AgentActionResult

pub record RegisteredActionHandler (W : Type 0) : Type 0 where
  pub action : AgentActionType
  pub handler : Handler W
  pub description : String
  pub dry_run_safe : Bool
  pub live_safe : Bool
  pub required_capabilities : List String
  pub metadata : Fields

-- an entry of the dispatch log
pub record LogEntry : Type 0 where
  pub request_id : String
  pub action : String
  pub target_node : String
  pub registered : Bool
  pub status : String
  pub context : ActionHandlerContext

pub record ActionHandlerRegistry (W : Type 0) : Type 0 where
  pub handlers : Dict AgentActionType (RegisteredActionHandler W)
  pub dispatch_log : List LogEntry

-- the context where none is given
unfoldable pub default_context : AgentActionRequest → ActionHandlerContext
default_context r = record {
  node_id = r.target_node;
  session_id = none;
  delivery_id = none;
  correlation_id = none;
  requested_by = "node-worker-runtime";
  is_dry_run = r.is_dry_run;
  approval_tokens = [];
  resource_reservation_id = none;
  metadata = end;
}

-- `_synthetic_result`; `id` is drawn at random
unfoldable pub synthetic :
    AgentActionRequest
    → AgentActionStatus
    → String
    → ActionHandlerContext
    → String
    → ℕ
    → AgentActionResult
synthetic r status reason context id now = record {
  request_id = r.id;
  target_node = r.target_node;
  action = r.action;
  status = status;
  reason = reason;
  created_at = now;
  completed_at = now;
  id = id;
  metadata = in_context context;
  events = [];
}

unfoldable pub log_entry :
    AgentActionRequest → ActionHandlerContext → AgentActionResult → Bool → LogEntry
log_entry r context result registered = record {
  request_id = r.id;
  action = action_value r.action;
  target_node = r.target_node;
  registered = registered;
  status = status_value result.status;
  context = context;
}

module _ {W : Type 0} where
  -- `ActionHandlerRegistry.register`; the action is an enumerator or the text of one
  unfoldable pub register :
      ActionHandlerRegistry W
      → Result ActionHandlerError AgentActionType
      → RegisteredActionHandler W
      → Bool
      → ActionHandlerRegistry W × Result ActionHandlerError (RegisteredActionHandler W)
  register g (raise e) h replace = (g, raise e)
  register g (ok a) h replace =
      let registered : RegisteredActionHandler W = record h { action = a } in
      if is_some (get a g.handlers) && not replace
      then (g, raise (handler_registered a))
      else (record g { handlers = put a registered g.handlers }, ok registered)

  unfoldable pub unregister :
      ActionHandlerRegistry W
      → Result ActionHandlerError AgentActionType
      → ActionHandlerRegistry W × Result ActionHandlerError Bool
  unregister g (raise e) = (g, raise e)
  unregister g (ok a) = (record g { handlers = pop a g.handlers }, ok (is_some (get a g.handlers)))

  unfoldable pub require :
      ActionHandlerRegistry W
      → AgentActionType
      → Result ActionHandlerError (RegisteredActionHandler W)
  require g a = elim (get a g.handlers) [ none ↦ raise (no_handler a) | some h ↦ ok h ]

  -- `_record` with the answer of `dispatch`
  unfoldable pub logged :
      ActionHandlerRegistry W
      → W
      → AgentActionRequest
      → ActionHandlerContext
      → AgentActionResult
      → Bool
      → ActionHandlerRegistry W × W × AgentActionResult
  unfolding log_entry
  logged g w r context result registered = (
    record g { dispatch_log = g.dispatch_log ++ log_entry r context result registered ∷ [] },
    w,
    result,
  )

  -- the call of the handler, with its exceptions
  unfoldable pub call_handler :
      ActionHandlerRegistry W
      → W × Result String AgentActionResult
      → AgentActionRequest
      → ActionHandlerContext
      → String
      → ℕ
      → ActionHandlerRegistry W × W × AgentActionResult
  unfolding logged synthetic
  call_handler g (w, raise e) r context id now =
      logged g w r context (synthetic r failed e context id now) true
  call_handler g (w, ok result) r context id now = logged g w r context result true

  -- the rest of `dispatch` with what `require` answers or raises
  unfoldable pub after_require :
      ActionHandlerRegistry W
      → W
      → AgentActionRequest
      → ActionHandlerContext
      → String
      → ℕ
      → Result ActionHandlerError (RegisteredActionHandler W)
      → ActionHandlerRegistry W × W × AgentActionResult
  unfolding message logged synthetic call_handler
  after_require g w r context id now (raise e) =
      logged g w r context (synthetic r denied (message e) context id now) false
  after_require g w r context id now (ok h) =
      if r.is_dry_run && not h.dry_run_safe
      then logged g w r context (synthetic r denied "handler is not dry-run safe" context id now)
          true
      else if not r.is_dry_run && not h.live_safe
      then logged g w r context (synthetic r denied "handler is not live-safe" context id now) true
      else call_handler g (h.handler w r context) r context id now

  -- `dispatch` with a context
  unfoldable pub dispatch :
      ActionHandlerRegistry W
      → W
      → AgentActionRequest
      → ActionHandlerContext
      → String
      → ℕ
      → ActionHandlerRegistry W × W × AgentActionResult
  unfolding require after_require
  dispatch g w r context id now = after_require g w r context id now (require g r.action)

-- `_agent_handler`: the handler of an agent, which is the node's world. `show` is the text of an exception.
unfoldable pub agent_handler :
    Python → (NodeAgentError → String) → (AgentActionRequest → String × ℕ) → Handler LocalNodeAgent
unfolding handle
agent_handler py show draw a r context =
    let (id, now) = draw r in
    let (a', handled) = handle py a r id now in
    (a', elim handled [ raise e ↦ raise (show e) | ok result ↦ ok result ])

unfoldable pub agent_entry :
    Handler LocalNodeAgent
    → Bool
    → String
    → AgentActionType
    → RegisteredActionHandler LocalNodeAgent
agent_entry h live_safe node_id a = record {
  action = a;
  handler = h;
  description = str_append "LocalNodeAgent handler for " (action_value a);
  dry_run_safe = true;
  live_safe = live_safe;
  required_capabilities = [];
  metadata = field "node_id" (text node_id) end;
}

-- the loop of `build_agent_handler_registry` over the allowed actions
unfoldable pub register_actions :
    Handler LocalNodeAgent
    → Bool
    → String
    → List String
    → ActionHandlerRegistry LocalNodeAgent
    → Result ActionHandlerError (ActionHandlerRegistry LocalNodeAgent)
unfolding coerce_action register agent_entry
register_actions h live_safe node_id [] g = ok g
register_actions h live_safe node_id (name ∷ names) g = elim (coerce_action name) [
  | raise e ↦ raise e
  | ok a ↦
      register_actions h live_safe node_id names
        (register g (ok a) (agent_entry h live_safe node_id a) true).0
]

unfoldable pub build_agent_handler_registry :
    Handler LocalNodeAgent
    → LocalNodeAgent
    → Bool
    → Result ActionHandlerError (ActionHandlerRegistry LocalNodeAgent)
unfolding register_actions
build_agent_handler_registry h a live_safe =
    register_actions h live_safe a.descriptor.id a.descriptor.allowed_actions
      (record { handlers = []; dispatch_log = [] })
