-- ===== src/Main.antt =====
-- src/main.cpp: the log, the snapshot and the store that a process starts with.
pub mod Recovery
use concurrent_kv_store.Base.{
  true, true, ltb, if◌then◌else◌, List, ◌∷◌, [], ℕ, none, some, Bytes, Result, ok, throws, ◌>>=◌,
}
use concurrent_kv_store.Server.{
  Response, usage, title, loading_snapshot, loaded_entries, replaying_wal, recovered_count, run,
}
use concurrent_kv_store.BinaryIo.{Endian}
use concurrent_kv_store.Snapshot.Types.{Files, SnapshotIo, SnapshotLoadResult}
use concurrent_kv_store.Store.Objects.{new_store}
use concurrent_kv_store.Store.Persistence.{load_snapshot, replay_from_wal}
use concurrent_kv_store.Store.State
use concurrent_kv_store.Store.State.{Store, Exec, pure}
use concurrent_kv_store.Wal.Open.{open_wal}
use concurrent_kv_store.Wal.State.{Wal, Io}
use concurrent_kv_store.Wal.Types.{buffered}

-- The default of the constructor's `max_batch`.
abbrev pub default_max_batch : ℕ
default_max_batch = 32

module _ (hash : Bytes → ℕ) (host : Endian) where
  -- Snapshot first, then the part of the log behind the offset that the snapshot names.
  unfoldable pub recover : Files → Wal → Exec (SnapshotLoadResult × ℕ)
  recover files w = State.◌>>=◌ (load_snapshot hash host files) λ snapshot_result.
      State.◌>>=◌ (replay_from_wal hash w snapshot_result.wal_offset)
        λ recovered_operations. pure (snapshot_result, recovered_operations)

  -- The objects of `main` up to the command loop; an exception ends the process.
  unfoldable pub start : Io → Bytes → Files → Result ((SnapshotLoadResult × ℕ) × Store)
  start io file files = do
    w ← open_wal host io file buffered default_max_batch
    let p = recover files w (new_store (some w) (some files))
    recovered ← p.0
    ok (recovered, p.1)

  -- `main` with `argc` arguments, the lines of the standard input, and what the system answers: the exit
  -- code and what was written. An exception before the command loop escapes.
  unfoldable pub main_program :
      Bytes → ℕ → Io → Bytes → Files → List (Io × SnapshotIo × Bytes) → Result (ℕ × List Response)
  main_program version argc io file files lines = if ltb 1 argc then ok (1, usage ∷ []) else (do
    (recovered, st) ← start io file files
    let banner =
        title version
        ∷ loading_snapshot
        ∷ loaded_entries recovered.0.entry_count
        ∷ replaying_wal
        ∷ recovered_count recovered.1
        ∷ []
    let s = run hash host version lines (record { store = st; running = true; output = banner })
    ok (0, s.output))
