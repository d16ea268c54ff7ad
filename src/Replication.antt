-- ===== src/Replication.antt =====
-- leader-follower-replication/replication.py: the follower, the leader that feeds it, and reading sessions.
pub mod Follower
pub mod Leader
pub mod Session
pub mod Replay
pub mod Feeding
pub mod Refines
pub mod Agree
pub mod Late
mod Tests
