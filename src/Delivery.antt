-- ===== src/Delivery.antt =====
-- node_delivery.py: the queue that tracks each action for a node until it is acknowledged, expires or is
-- given up. Instants are microseconds since the epoch, and an instant of a call is `now`.
pub mod Item
pub mod Changes
pub mod Queue
pub mod Service
pub mod Lifecycle
pub mod Keeps
pub mod Writes
pub mod Moves
pub mod Stages
pub mod Audit
pub mod Sorted
pub mod Acks
pub mod Backoff
pub mod Dispatch
