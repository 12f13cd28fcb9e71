-- ===== src/System.antt =====
-- The steps of a running process: calls of the store of src/store/kv_store.cpp and the parts of a
-- background checkpoint, in any order.
pub mod Points
pub mod Calls
pub mod Sound
pub mod Writes
pub mod Checkpoints
pub mod Safety
pub mod Crash
pub mod Leaves
pub mod Compaction
pub mod Clearing
pub mod Restart
pub mod Start
pub mod Outcomes
use concurrent_kv_store.Base.{
  throws, Error, Result, false, ℕ, ◌≡◌, ◌<◌, ◌^◌, Bool, true, Option, none, some, Bytes, Result,
  Error, length, ok,
}
use concurrent_kv_store.BinaryIo.{Endian}
use concurrent_kv_store.Main.{start}
use concurrent_kv_store.Maps.{Map}
use concurrent_kv_store.Snapshot.Save.{save_verified}
use concurrent_kv_store.Snapshot.Types.{Files, SnapshotIo, SnapshotLoadResult}
use concurrent_kv_store.Store.Checkpoint.{Wakeup, takes, wake_up, capture, record_error}
use concurrent_kv_store.Store.Data.{collect_data, set, delete}
use concurrent_kv_store.Store.Persistence.{save_snapshot, compact_persistence}
use concurrent_kv_store.Store.State.{Store, on_snapshot}
use concurrent_kv_store.Wal.State.{Wal, Io}

-- The store, and what the checkpoint thread has captured and not yet saved, while it holds the snapshot
-- mutex.
pub record System : Type 0 where
  pub store : Store
  pub captured : Option (Map × ℕ)

-- The handler of the round and its last block.
unfoldable pub close_round : Result (Unit {0}) × Store → Store
close_round p = record (record_error p) { checkpoint_active = false }

-- What `CheckpointLoop` does with what it captured: `SaveVerified` and the end of the round.
unfoldable pub save_captured : Endian → SnapshotIo → Map × ℕ → Store → Store
save_captured host sio (entries, wal_offset) st =
    close_round (on_snapshot (save_verified host sio entries wal_offset) tt st)

-- The length of the file of the log.
unfoldable pub log_length : Store → ℕ
log_length st = elim st.wal [ none ↦ 0 | some w ↦ length w.file ]

-- Fewer entries than the snapshot can count, and a log that is no longer than a file can be.
abbrev pub Fits : Store → Type 0
Fits st = (length (collect_data st) < 2 ^ 32) × (log_length st < 2 ^ 63)

-- A step. Saves by the caller take the snapshot mutex, so they wait for the checkpoint thread; SET and
-- DELETE do not.
module _ (hash : Bytes → ℕ) (host : Endian) where
  pub data Step : System → System → Type 0 where
    step_set :
        (io : Io) (key value : Bytes) (s : System) (after : Store)
        → set hash io key value s.store ≡ (ok tt, after)
        → Step s (record s { store = after })
    step_delete :
        (io : Io) (key : Bytes) (erased : Bool) (s : System) (after : Store)
        → delete hash io key s.store ≡ (ok erased, after)
        → Step s (record s { store = after })
    step_wake :
        (epoch : ℕ) (s : System) (after : Store)
        → wake_up s.store ≡ takes epoch after
        → Step s (record s { store = after })
    step_capture :
        (io : Io) (entries : Map) (wal_offset : ℕ) (s : System) (after : Store)
        → s.captured ≡ none
        → capture io s.store ≡ (ok (entries, wal_offset), after)
        → Fits s.store
        → Step s (record { store = after; captured = some (entries, wal_offset) })
    step_save_captured :
        (sio : SnapshotIo) (entries : Map) (wal_offset : ℕ) (s : System)
        → s.captured ≡ some (entries, wal_offset)
        → Step s (record {
          store = save_captured host sio (entries, wal_offset) s.store;
          captured = none;
        })
    step_save :
        (io : Io) (sio : SnapshotIo) (s : System)
        → s.captured ≡ none
        → Fits s.store
        → Step s (record s { store = (save_snapshot host io sio s.store).1 })
    step_compact :
        (io : Io) (sio : SnapshotIo) (s : System) (after : Store)
        → s.captured ≡ none
        → Fits s.store
        → compact_persistence host io sio s.store ≡ (ok true, after)
        → Step s (record s { store = after })
    step_refuse_set :
        (io : Io) (key value : Bytes) (e : Error) (s : System) (after : Store)
        → set hash io key value s.store ≡ (throws e, after)
        → after.wal ≡ s.store.wal
        → Step s (record s { store = after })
    step_refuse_delete :
        (io : Io) (key : Bytes) (e : Error) (s : System) (after : Store)
        → delete hash io key s.store ≡ (throws e, after)
        → after.wal ≡ s.store.wal
        → Step s (record s { store = after })
    step_capture_fails :
        (io : Io) (e : Error) (s : System) (after : Store)
        → s.captured ≡ none
        → capture io s.store ≡ (throws e, after)
        → Step s (record s { store = close_round (throws e, after) })
    step_cancelled :
        (s : System)
        → s.captured ≡ none
        → Step s (record s { store = close_round (ok tt, s.store) })
    step_restart :
        (io : Io) (w : Wal) (files : Files) (r : SnapshotLoadResult × ℕ) (s : System)
        (after : Store)
        → s.store.wal ≡ some w
        → s.store.snapshot ≡ some files
        → start hash host io w.file files ≡ ok (r, after)
        → Step s (record { store = after; captured = none })

  pub data Reach (initial : System) : System → Type 0 where
    reach_start : Reach initial initial
    reach_step : {s t : System} → Reach initial s → Step s t → Reach initial t
