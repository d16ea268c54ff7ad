-- ===== src/Fencing.antt =====
-- fencing-tokens/fencing_tokens.py: the lock service, the resource servers and the client.
pub mod Lock
pub mod Resource
pub mod Client
mod Tests
