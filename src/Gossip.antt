-- ===== src/Gossip.antt =====
-- The gossip protocol of gossip-protocol/gossip_protocol.py.
pub mod Node
pub mod Cluster
pub mod Merged
pub mod Own
pub mod Goes
pub mod Rounds
mod Tests
