-- ===== src/Worker.antt =====
-- worker_runtime.py: the loop of a node that takes one signed action, acknowledges it, runs its handler
-- within the resource guard and sends the result.
pub mod Payload
pub mod Runtime
pub mod Processing
pub mod Sent
pub mod Restored
pub mod Cleared
