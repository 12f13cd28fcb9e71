-- ===== src/Store/Persistence.antt =====
-- `ClearPersistence`, `SaveSnapshot`, `CompactPersistence`, `LoadSnapshot` and `ReplayFromWal`.
use concurrent_kv_store.Base.{ℕ, ◌+◌, Bool, true, false, none, some, [], Bytes, ok}
use concurrent_kv_store.BinaryIo.{Endian}
use concurrent_kv_store.Snapshot.Load.{load}
use concurrent_kv_store.Snapshot.Save
use concurrent_kv_store.Snapshot.Types.{Files, SnapshotIo, SnapshotLoadResult}
use concurrent_kv_store.Store.Data.{collect_data, replace_data}
use concurrent_kv_store.Store.State.{
  Store, Exec, ◌>>=◌, ◌>>◌, pure, modify, lift, on_wal, on_snapshot,
}
use concurrent_kv_store.Wal.State.{Wal, Io}
use concurrent_kv_store.Wal.Truncate
use concurrent_kv_store.Wal.Truncate.{current_offset, rotate, replay_from}

-- `CancelPendingCheckpoint`
unfoldable pub cancel_pending_checkpoint : Store → Store
cancel_pending_checkpoint st = record st {
  checkpoint_epoch = st.checkpoint_epoch + 1;
  checkpoint_requested = false;
}

-- `writes_since_snapshot_ = 0;`
unfoldable pub reset_writes : Store → Store
reset_writes st = record st { writes_since_snapshot = 0 }

-- `ClearPersistence`
unfoldable pub clear_persistence : Io → SnapshotIo → Exec (Unit {0})
clear_persistence io sio = do
  modify cancel_pending_checkpoint
  on_wal (Truncate.clear io) tt
  on_snapshot (Save.clear sio) tt
  modify reset_writes

-- `SaveSnapshotLocked`
unfoldable pub save_snapshot_locked : Endian → Io → SnapshotIo → Exec Bool
save_snapshot_locked host io sio st = elim st.snapshot [
  | none ↦ (ok false, st)
  | some _ ↦
      (do
        wal_offset ← on_wal (current_offset io) 0
        on_snapshot (Save.save_verified host sio (collect_data st) wal_offset) tt
        modify reset_writes
        pure true)
        st
]

-- `SaveSnapshot`
unfoldable pub save_snapshot : Endian → Io → SnapshotIo → Exec Bool
save_snapshot host io sio = do modify cancel_pending_checkpoint; save_snapshot_locked host io sio

-- `CompactPersistenceLocked`
unfoldable pub compact_persistence_locked : Endian → Io → SnapshotIo → Exec Bool
compact_persistence_locked host io sio st = elim st.snapshot [
  | none ↦ (ok false, st)
  | some _ ↦
      (do
        on_snapshot (Save.save_verified host sio (collect_data st) 0) tt
        on_wal (rotate io) tt
        modify reset_writes
        pure true)
        st
]

-- `CompactPersistence`
unfoldable pub compact_persistence : Endian → Io → SnapshotIo → Exec Bool
compact_persistence host io sio = do
  modify cancel_pending_checkpoint
  compact_persistence_locked host io sio

module _ (hash : Bytes → ℕ) where
  -- `LoadSnapshot` from the files of a snapshot.
  unfoldable pub load_snapshot : Endian → Files → Exec SnapshotLoadResult
  load_snapshot host fs = do
    modify cancel_pending_checkpoint
    (result, entries) ← lift (load host fs.committed [])
    modify (replace_data hash entries)
    pure result

  -- `ReplayFromWal` from a log: the number of operations.
  unfoldable pub replay_from_wal : Wal → ℕ → Exec ℕ
  replay_from_wal w offset st =
      (do
        (count, entries) ← lift (replay_from w offset (collect_data st))
        modify (replace_data hash entries)
        pure count)
        st
