-- ===== src/Examples/Agents.antt =====
-- node_agent.py and action_handlers.py at concrete inputs: an agent that may prewarm, and a handler that
-- counts its calls.
use cyber_hive.Prelude.{
  string_eq, nat_eq, mem, ok, raise, ℕ, ◌+◌, ◌*◌, ◌≡◌, refl, true, false, none, [], ◌∷◌,
}
use cyber_hive.Prelude.Dict.{get}
use cyber_hive.Plan.Metadata.{null, text, number, end, field}
use cyber_hive.Resource.{not_numeric, thousandths}
use cyber_hive.Agent.Local.{
  agent_policy, LocalNodeAgent, gate, live_gate, preflight, carry_out, handle,
}
use cyber_hive.Agent.Node.{
  Python, prewarm_model, action_value, action_eq, supports_action, AgentActionRequest,
  AgentActionResult,
}
use cyber_hive.Agent.Handlers.{
  RegisteredActionHandler, ActionHandlerRegistry, default_context, require, logged, call_handler,
  after_require, dispatch,
}
use cyber_hive.Agent.Permitted.{IsHandled, handle-IsHandled}
use cyber_hive.Agent.Safe.{Dispatched, dispatch-Dispatched}

-- conversions that only tell null from the other values
abbrev pub toy_python : Python
toy_python = record {
  str_of = λ v. "value";
  is_true = λ v. elim v [ null ↦ false | _ ↦ true ];
  float_of = λ v. elim v [ number n ↦ thousandths (1000 * n) | _ ↦ not_numeric ];
  int_of = λ v. elim v [ number n ↦ ok n | _ ↦ raise "no integer" ];
  json_size = λ fields. 100;
}

abbrev pub edge_agent : LocalNodeAgent
edge_agent = record {
  descriptor = record {
    id = "edge-1";
    enabled = true;
    healthy = true;
    capabilities = "gpu" ∷ [];
    allowed_actions = "health_check" ∷ "prewarm_model" ∷ [];
    labels = end;
    metadata = end;
    updated_at = 1000000;
  };
  policy = record agent_policy { allow_live_actions = true; allow_prewarm = true };
  warmed_models = [];
  handled_requests = [];
}

abbrev pub prewarming : AgentActionRequest
prewarming = record {
  target_node = "edge-1";
  action = prewarm_model;
  payload = field "model_id" (text "llama") end;
  is_dry_run = false;
  approval_tokens = "runtime.prewarm.execute" ∷ [];
  requested_by = "operator";
  correlation_id = none;
  id = "aar_1";
  created_at = 2000000;
}

abbrev prewarmed : AgentActionResult
prewarmed = (carry_out toy_python edge_agent prewarming "aas_1" 3000000 none).1

prewarming-handled : (handle toy_python edge_agent prewarming "aas_1" 3000000).1 ≡ ok prewarmed
unfolding handle preflight supports_action action_value mem live_gate gate carry_out
prewarming-handled = refl

handle-IsHandled_example :
    IsHandled toy_python edge_agent prewarming
      (handle toy_python edge_agent prewarming "aas_1" 3000000).0
      prewarmed
handle-IsHandled_example =
    handle-IsHandled toy_python edge_agent prewarming "aas_1" 3000000 prewarmed prewarming-handled

-- a handler that counts its calls and then raises
abbrev pub counting : RegisteredActionHandler ℕ
counting = record {
  action = prewarm_model;
  handler = λ w r context. (w + 1, raise "out of memory");
  description = "counts";
  dry_run_safe = false;
  live_safe = true;
  required_capabilities = [];
  metadata = end;
}

abbrev pub counters : ActionHandlerRegistry ℕ
counters = record { handlers = (prewarm_model, counting) ∷ []; dispatch_log = [] }

dispatch-Dispatched_example :
    Dispatched counters 0 prewarming
      (default_context prewarming)
      "aas_1"
      3000000
      (dispatch counters 0 prewarming (default_context prewarming) "aas_1" 3000000)
dispatch-Dispatched_example =
    dispatch-Dispatched counters 0 prewarming (default_context prewarming) "aas_1" 3000000

-- the call is counted although the handler raised
prewarming-counted :
    (dispatch counters 0 prewarming (default_context prewarming) "aas_1" 3000000).1 ≡ 1
unfolding dispatch require get after_require call_handler logged
prewarming-counted = refl
