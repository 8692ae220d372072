-- ===== src/Agent.antt =====
-- node_agent.py and action_handlers.py: the actions that a node carries out, its agent, and the handlers
-- that the actions are handed to.
pub mod Node
pub mod Local
pub mod Registry
pub mod Handlers
pub mod Permitted
pub mod Safe
