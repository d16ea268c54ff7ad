-- ===== src/Raft.antt =====
-- raft-consensus/raft.py: a node (`Node`, `Replication`, `Handlers`), and what holds of it.
pub mod Node
pub mod Replication
pub mod Handlers
pub mod Vote
pub mod Append
pub mod Commit
mod Tests
