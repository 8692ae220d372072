-- ===== src/Gateway.antt =====
-- secure_node_gateway.py: the gateway that holds the session secrets, verifies what nodes send and signs
-- what they are sent. Instants are microseconds since the epoch.
pub mod Vault
