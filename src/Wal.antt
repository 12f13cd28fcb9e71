-- ===== src/Wal.antt =====
-- include/persistence/wal.h and src/persistence/wal.cpp: the write-ahead log.
pub mod Types
pub mod Codec
pub mod Record
pub mod Replay
pub mod State
pub mod Append
pub mod GroupCommit
pub mod Truncate
pub mod Open
