-- ===== src/Store/Checkpoint.antt =====
-- The background checkpoint thread: the rounds of `CheckpointLoop`, and `WaitForCheckpoints`.
use concurrent_kv_store.Base.{
  ℕ, true, false, not, ◌||◌, Option, none, some, ◌==◌, if◌then◌else◌, Result, ok, throws, stuck,
}
use concurrent_kv_store.BinaryIo.{Endian}
use concurrent_kv_store.Maps.{Map}
use concurrent_kv_store.Snapshot.Save
use concurrent_kv_store.Snapshot.Types.{SnapshotIo}
use concurrent_kv_store.Store.Data.{collect_data}
use concurrent_kv_store.Store.Persistence.{reset_writes}
use concurrent_kv_store.Store.State.{Store, Exec, ◌>>=◌, ◌>>◌, pure, modify, on_wal, on_snapshot}
use concurrent_kv_store.Wal.State.{Io}
use concurrent_kv_store.Wal.Truncate.{current_offset}

-- What the thread does when it holds the checkpoint mutex: wait on, return, or take the request and its
-- epoch.
pub data Wakeup : Type 0 where
  waits returns : Wakeup
  takes : ℕ → Store → Wakeup

unfoldable pub wake_up : Store → Wakeup
wake_up st =
    if st.checkpoint_requested
    then takes st.checkpoint_epoch
        (record st { checkpoint_requested = false; checkpoint_active = true })
    else if st.checkpoint_stopping
    then returns
    else waits

-- The block under the shard locks: the data and the offset that the snapshot is to cover.
unfoldable pub capture : Io → Exec (Map × ℕ)
capture io st =
    (do
      wal_offset ← on_wal (current_offset io) 0
      modify reset_writes
      pure (collect_data st, wal_offset))
      st

-- The `try` block: nothing if the request was cancelled in the meantime.
unfoldable pub checkpoint_body : Endian → Io → SnapshotIo → ℕ → Exec (Unit {0})
checkpoint_body host io sio epoch st =
    if not (epoch == st.checkpoint_epoch)
    then (ok tt, st)
    else (do
      (entries, wal_offset) ← capture io
      on_snapshot (Save.save_verified host sio entries wal_offset) tt)
        st

-- The `catch (...)` block.
unfoldable pub record_error : Result (Unit {0}) × Store → Store
record_error (ok _, st) = st
record_error (throws e, st) = record st { checkpoint_error = some e; checkpoint_requested = false }
record_error (stuck, st) = st

-- A round behind the wakeup.
unfoldable pub checkpoint_round : Endian → Io → SnapshotIo → ℕ → Store → Store
checkpoint_round host io sio epoch st =
    record (record_error (checkpoint_body host io sio epoch st)) { checkpoint_active = false }

-- `WaitForCheckpoints`: `none` while it waits.
unfoldable pub wait_for_checkpoints : Store → Option (Result (Unit {0}))
wait_for_checkpoints st = elim st.snapshot [
  | none ↦ some (ok tt)
  | some _ ↦
      if st.checkpoint_requested || st.checkpoint_active
      then none
      else elim st.checkpoint_error [ none ↦ some (ok tt) | some e ↦ some (throws e) ]
]
