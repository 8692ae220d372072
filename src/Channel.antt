-- ===== src/Channel.antt =====
-- secure_channel.py: the signed envelopes, the replay guard and the channel that verifies them.
-- Instants are microseconds since the epoch. `J` is the type of the JSON objects in an envelope.
pub mod Envelope
pub mod Guard
pub mod Accepts
pub mod Replay
pub mod Roundtrip
