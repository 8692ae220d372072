-- ===== src/Heartbeat.antt =====
-- node_heartbeat.py: what the nodes report of themselves and how live they are. Instants and ages are
-- microseconds; the quantities are in thousandths.
pub mod Sample
pub mod Store
pub mod Sequences
pub mod Valid
pub mod Synced
pub mod Liveness
