-- ===== src/Wal.antt =====
-- The write-ahead log of write-ahead-log/wal.py.
pub mod Bytes
pub mod Record
pub mod Log
pub mod Fields
pub mod Codec
mod Tests
