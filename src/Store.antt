-- ===== src/Store.antt =====
-- include/store/kv_store.h and src/store/kv_store.cpp: the sharded store. `std::hash` is a parameter.
pub mod Shards
pub mod State
pub mod Data
pub mod Effects
pub mod Deletes
pub mod Lookup
pub mod Persistence
pub mod Checkpoint
pub mod Objects
pub mod Fresh
pub mod Copies
