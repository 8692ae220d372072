-- ===== src/Examples.antt =====
-- The theorems at concrete inputs, one file per component.
pub mod Guards
pub mod Messages
pub mod Items
pub mod Grants
pub mod Decisions
pub mod Executions
pub mod Requests
pub mod Governance
pub mod Nodes
pub mod Caching
pub mod Deliveries
pub mod Heartbeats
pub mod Agents
pub mod Workers
