-- ===== src/Lib.antt =====
-- CyberHIVE core: a model of the decision-making parts of src/cyberhive_core and the theorems that make
-- them correct.
--
-- The parts and how they interact. The inventory lists what a node has; the exposure gateway lends it
-- out by grants that expire. A plan of the orchestrator is judged by the policy guard; what needs
-- approval becomes a request at the approval broker; what is allowed goes to the execution engine. On a
-- node the resource guard admits actions within a budget. Messages between nodes and the controller
-- pass the secure channel, which signs and verifies them. The controller keeps what it hears of its
-- nodes in the heartbeat store and what it sends them in the delivery queue, which sends an action
-- again until the node acknowledges it; the node's worker verifies the action, reserves its resources,
-- hands it to the handler that is registered for it, and sends the result back.
--
-- * Resource and Resource.Guard model src/cyberhive_core/resource_guard.py: `reserve`, `release`,
--   `usage` and `denial` are the methods of LocalResourceGuard; `run` is a history of calls.
-- * Channel models src/cyberhive_core/secure_channel.py: Channel.Envelope the signed envelope,
--   Channel.Guard the replay guard and SecureChannel with `verify` and `build_envelope`. The tests of
--   `verify` are `screen` (above the signature), `after_screen`, `after_signature` and `after_replay`.
-- * Inventory models src/cyberhive_core/inventory.py, Exposure src/cyberhive_core/exposure_gateway.py.
-- * Plan holds the records of src/cyberhive_core/integration_orchestrator.py, scheduler_router.py and
--   data_fabric.py that are read here; Plan.Metadata the values of a metadata mapping.
-- * Policy and Policy.Exposing model src/cyberhive_core/policy_governance.py. Each rule of an
--   evaluation is a function to the findings which it appends, in the order of the code.
-- * Execution and Execution.Engine model src/cyberhive_core/execution_engine.py.
-- * Approval models the broker of src/cyberhive_core/approval_workflow.py, Governed its controller
--   GovernedExecutionController; `after_decision` is what follows the guard's decision.
-- * Identity models src/cyberhive_core/node_identity.py: Identity.Registry the identities and sessions,
--   Identity.Enrollment the bootstrap tokens and `evaluate`. Its `verify_session` is what the secure
--   channel asks its registry.
-- * Cache models src/cyberhive_core/cache_reuse.py: Cache the policy and the store, Cache.Fabric the
--   puts and gets of CacheFabric; Cache.Calls is a history of calls. Cost scores and execution patterns
--   are left out.
-- * Heartbeat models src/cyberhive_core/node_heartbeat.py: Heartbeat.Sample a heartbeat, its numbers
--   and the snapshot, Heartbeat.Store `ingest` with `validate` and the liveness of the nodes.
-- * Agent models src/cyberhive_core/node_agent.py (Agent.Node the actions and requests, Agent.Local the
--   agent with `preflight` and `handle`, Agent.Registry the registry and the requests of a plan) and
--   src/cyberhive_core/action_handlers.py (Agent.Handlers).
-- * Gateway.Vault models the credentials and the receipts of src/cyberhive_core/secure_node_gateway.py.
-- * Worker models src/cyberhive_core/worker_runtime.py: Worker.Payload what is read from a payload,
--   with `resource_request_from_payload` of resource_guard.py, Worker.Runtime the runtime's state,
--   Worker.Processing `process_action_envelope`; its parts `after_verify`, `after_accept`, `guarded`,
--   `after_reserve`, `run_handler` and `conclude` are the method's own in its order.
-- * Delivery models src/cyberhive_core/node_delivery.py: Delivery.Item the retry policy and one
--   delivery, Delivery.Changes what may become of it, Delivery.Queue the queue, Delivery.Service the
--   service over the interface Gateway, and a history of calls. Delivery.Lifecycle has the changes of
--   an item as a step relation and the abstract life cycle.
-- * Prelude holds what the parts share; Examples the theorems at concrete inputs.
--
-- How the model stands to the code. A method that changes its object takes the object and returns it
-- with the answer; an exception is the constructor `raise` of Result. A dictionary is the list of its
-- items in the order of insertion. Numbers are natural numbers: a float quantity of the resource guard
-- is in thousandths (Raw says what the conversion of an argument may meet), an instant is in
-- microseconds since the epoch. A negative time to live or sequence, or a negative limit of uses or of
-- a budget, is no value of the model: the code rejects it as it does 0, or counts it as 0, except that
-- a negative skew of a channel and a negative time to live of an envelope raise where 0 does not. The
-- clock and the random identifiers are arguments; where one call reads the clock more than once and
-- nothing depends on the difference, the readings are one argument. json, hashlib and hmac are the
-- parameters Crypto and Hashes, the bus and the journal file of the engine the parameter Effects, and
-- `str` of a metadata value that is no text a parameter of Governed; the conversions of payload values
-- are the parameter Python, and how the metadata of a result is written the parameter `render`. A bus
-- that is given to the heartbeat store or the agents is a Boolean function that says whether a
-- publication raises. The world of a node, which handlers change, is a type parameter. The limit of a
-- slice is an integer and may be negative. The backoff multiplier is in thousandths and its powers are
-- exact: the float of the code may overflow, and then raises. A heartbeat's numbers are numbers: a text
-- that `float` accepts is none of the model, and a queue depth is no infinite float, of which `int`
-- raises an exception that the code lets pass. What a theorem asks of these is among its hypotheses. No
-- definition needs fuel: each loop of the code runs over a list, and so does the recursion here.
--
-- Not modelled: as_dict methods and other conversions for output; journal files, sockets, processes and
-- the runtime bus; the parts that score with floats (router, placement, forecasting); the routers
-- between the channel and the stores (SecureChannelRouter, SecureNodeGateway), the reconciliation of
-- nodes, and the event store.
pub mod Prelude
pub mod Resource
pub mod Channel
pub mod Inventory
pub mod Exposure
pub mod Plan
pub mod Policy
pub mod Execution
pub mod Approval
pub mod Governed
pub mod Identity
pub mod Cache
pub mod Heartbeat
pub mod Agent
pub mod Gateway
pub mod Worker
pub mod Delivery
pub mod Examples
