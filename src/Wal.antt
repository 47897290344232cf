-- ===== src/Wal.antt =====
-- src/wal.rs and src/wal/: the write-ahead log.
pub mod Records
pub mod Checkpoint
pub mod Segment
