-- ===== src/System/Calls.antt =====
-- What the calls of the store leave of the log, the files of the snapshot and the shards.
use concurrent_kv_store.Base.{
  false, throws, stuck, Result, refl, false, length, ℕ, ◌≡◌, ◌⊎◌, true, Bytes, some, ok, returned,
  arith,
}
use concurrent_kv_store.BinaryIo.{Endian}
use concurrent_kv_store.Maps.{Map}
use concurrent_kv_store.Snapshot.Save
use concurrent_kv_store.Snapshot.Types.{Files, SnapshotIo}
use concurrent_kv_store.Store.Checkpoint.{wake_up, takes, capture, record_error}
use concurrent_kv_store.Store.Data.{
  set, delete, put, remove, erases, collect_data, check_checkpoint_error, count_write,
  schedule_checkpoint,
}
use concurrent_kv_store.Store.Persistence.{
  save_snapshot, save_snapshot_locked, compact_persistence, compact_persistence_locked,
  reset_writes, cancel_pending_checkpoint,
}
use concurrent_kv_store.Store.State.{Store}
use concurrent_kv_store.System.{save_captured, close_round}
use concurrent_kv_store.Wal.Append.{append_set, append_delete}
use concurrent_kv_store.Wal.State.{Wal, Io}
use concurrent_kv_store.Wal.Truncate
use concurrent_kv_store.Wal.Truncate.{current_offset}

module _ (hash : Bytes → ℕ) (io : Io) (st : Store) (w : Wal) (has_wal : st.wal ≡ some w) where
  pub set-parts :
      (key value : Bytes)
      → let p = set hash io key value st in
        p.0 ≡ ok tt
        → (returned (append_set io key value w).0 ≡ true)
          × (p.1.wal ≡ some (append_set io key value w).1)
          × (p.1.snapshot ≡ st.snapshot)
          × (p.1.shards ≡ (put hash key value st).shards)
  unfolding set put check_checkpoint_error count_write schedule_checkpoint
  set-parts key value = ground (arith, has_wal)

  pub delete-parts :
      (key : Bytes)
      → let p = delete hash io key st in
        returned p.0 ≡ true
        → (returned (append_delete io key w).0 ≡ true)
          × (p.1.wal ≡ some (append_delete io key w).1)
          × (p.1.snapshot ≡ st.snapshot)
          × (p.1.shards ≡ (remove hash key st).shards)
  unfolding delete remove erases check_checkpoint_error count_write schedule_checkpoint
  delete-parts key = ground (arith, has_wal)

-- The store outside of the log and the snapshot is as it was.
abbrev pub Keeps : Store → Store → Type 0
Keeps before after =
    (after.wal ≡ before.wal) × (after.snapshot ≡ before.snapshot) × (after.shards ≡ before.shards)

pub wake_up-Keeps : (epoch : ℕ) (st after : Store) → wake_up st ≡ takes epoch after → Keeps st after
unfolding wake_up
wake_up-Keeps epoch st after e = ground (arith, e)

pub capture-parts :
    (io : Io) (st : Store) (w : Wal)
    → st.wal ≡ some w
    → let p = capture io st in
      returned p.0 ≡ true → (p.0 ≡ ok (collect_data st, length w.file)) × Keeps st p.1
unfolding capture current_offset reset_writes
capture-parts io st w e = ground (arith, e)

pub save_captured-parts :
    (host : Endian) (sio : SnapshotIo) (m : Map) (offset : ℕ) (st : Store) (fs : Files)
    → st.snapshot ≡ some fs
    → let after = save_captured host sio (m, offset) st in
      (after.wal ≡ st.wal)
      × (after.shards ≡ st.shards)
      × (after.snapshot ≡ some (Save.save_verified host sio m offset fs).1)
unfolding save_captured close_round record_error
save_captured-parts host sio m offset st fs e = ground (arith, e)

pub save_snapshot-parts :
    (host : Endian) (io : Io) (sio : SnapshotIo) (st : Store) (w : Wal) (fs : Files)
    → st.wal ≡ some w
    → st.snapshot ≡ some fs
    → let after = (save_snapshot host io sio st).1 in
      (after.wal ≡ st.wal)
      × (after.shards ≡ st.shards)
      × ((after.snapshot ≡ st.snapshot)
          ⊎ (after.snapshot
              ≡ some (Save.save_verified host sio (collect_data st) (length w.file) fs).1))
unfolding save_snapshot save_snapshot_locked cancel_pending_checkpoint current_offset reset_writes
    collect_data
save_snapshot-parts host io sio st w fs e f = ground (arith, e, f)

pub compact-parts :
    (host : Endian) (io : Io) (sio : SnapshotIo) (st : Store) (w : Wal) (fs : Files)
    → st.wal ≡ some w
    → st.snapshot ≡ some fs
    → let p = compact_persistence host io sio st in
      let saved = Save.save_verified host sio (collect_data st) 0 fs in
      let rotated = Truncate.rotate io w in
      returned p.0 ≡ true
      → (returned saved.0 ≡ true)
        × (returned rotated.0 ≡ true)
        × (p.1.wal ≡ some rotated.1)
        × (p.1.snapshot ≡ some saved.1)
        × (p.1.shards ≡ st.shards)
unfolding compact_persistence compact_persistence_locked cancel_pending_checkpoint reset_writes
    collect_data
compact-parts host io sio st w fs e f = ground (arith, e, f)

-- A compaction that ends anywhere.
pub compact-leaves :
    (host : Endian) (io : Io) (sio : SnapshotIo) (st : Store) (w : Wal) (fs : Files)
    → st.wal ≡ some w
    → st.snapshot ≡ some fs
    → let after = (compact_persistence host io sio st).1 in
      let saved = Save.save_verified host sio (collect_data st) 0 fs in
      (after.snapshot ≡ some saved.1)
      × (after.shards ≡ st.shards)
      × ((after.wal ≡ some w)
          ⊎ ((returned saved.0 ≡ true) × (after.wal ≡ some (Truncate.rotate io w).1)))
unfolding compact_persistence compact_persistence_locked cancel_pending_checkpoint reset_writes
    collect_data
compact-leaves host io sio st w fs e f = ground (arith, e, f)

-- A SET or a DELETE that ends anywhere.
pub set-leaves :
    (hash : Bytes → ℕ) (io : Io) (key value : Bytes) (st : Store) (w : Wal)
    → st.wal ≡ some w
    → let p = set hash io key value st in
      (p.1.snapshot ≡ st.snapshot)
      × (((p.1.wal ≡ some w) × (returned p.0 ≡ false))
          ⊎ ((p.1.wal ≡ some (append_set io key value w).1)
              × (returned p.0 ≡ returned (append_set io key value w).0)))
unfolding set put check_checkpoint_error count_write schedule_checkpoint
set-leaves hash io key value st w e = ground (arith, e)

pub delete-leaves :
    (hash : Bytes → ℕ) (io : Io) (key : Bytes) (st : Store) (w : Wal)
    → st.wal ≡ some w
    → let p = delete hash io key st in
      (p.1.snapshot ≡ st.snapshot)
      × (((p.1.wal ≡ some w) × (returned p.0 ≡ false))
          ⊎ ((p.1.wal ≡ some (append_delete io key w).1)
              × (returned p.0 ≡ returned (append_delete io key w).0)))
unfolding delete remove erases check_checkpoint_error count_write schedule_checkpoint
delete-leaves hash io key st w e = ground (arith, e)

pub compact-true :
    (host : Endian) (io : Io) (sio : SnapshotIo) (st : Store) (fs : Files)
    → st.snapshot ≡ some fs
    → let p = compact_persistence host io sio st in returned p.0 ≡ true → p.0 ≡ ok true
unfolding compact_persistence compact_persistence_locked cancel_pending_checkpoint reset_writes
compact-true host io sio st fs e = ground (arith, e)

pub close_round-Keeps : (p : Result (Unit {0}) × Store) → Keeps p.1 (close_round p)
unfolding close_round record_error
close_round-Keeps (ok _, st) = (refl, refl, refl)
close_round-Keeps (throws e, st) = (refl, refl, refl)
close_round-Keeps (stuck, st) = (refl, refl, refl)

pub capture-fails :
    (io : Io) (st : Store) → returned (capture io st).0 ≡ false → Keeps st (capture io st).1
unfolding capture current_offset reset_writes
capture-fails io st = ground arith

pub set-refused :
    (hash : Bytes → ℕ) (io : Io) (key value : Bytes) (st : Store)
    → let p = set hash io key value st in
      returned p.0 ≡ false → (p.1.snapshot ≡ st.snapshot) × (p.1.shards ≡ st.shards)
unfolding set put check_checkpoint_error count_write schedule_checkpoint
set-refused hash io key value st = ground arith

pub delete-refused :
    (hash : Bytes → ℕ) (io : Io) (key : Bytes) (st : Store)
    → let p = delete hash io key st in
      returned p.0 ≡ false → (p.1.snapshot ≡ st.snapshot) × (p.1.shards ≡ st.shards)
unfolding delete remove erases check_checkpoint_error count_write schedule_checkpoint
delete-refused hash io key st = ground arith
