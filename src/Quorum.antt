-- ===== src/Quorum.antt =====
-- leaderless-replication/dynamo.py: replicas, the coordinator with its quorums, repair and hints.
pub mod Replica
pub mod Cluster
pub mod Hints
pub mod Keep
pub mod Steps
pub mod Overlap
pub mod Repair
mod Tests
