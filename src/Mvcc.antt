-- ===== src/Mvcc.antt =====
-- snapshot-isolation/mvcc_database.py: the database, its garbage collector, and what a snapshot shows.
pub mod Database
pub mod Collector
pub mod Valid
pub mod Steps
pub mod Snapshot
pub mod Isolation
pub mod Anomaly
pub mod Early
mod Tests
