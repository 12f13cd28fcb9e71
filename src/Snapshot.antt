-- ===== src/Snapshot.antt =====
-- include/persistence/snapshot.h and src/persistence/snapshot.cpp: the snapshot file.
pub mod Types
pub mod Save
pub mod Atomic
pub mod Load
pub mod RoundTrip
pub mod Commit
