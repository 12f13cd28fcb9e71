-- ===== src/System/Compaction.antt =====
-- A compaction that is cut off anywhere.
use concurrent_kv_store.Base.{
  ◌^◌, ℕ, ◌≡◌, ◌∙◌, ◌⊎◌, ◌<◌, inl, inr, Bytes, [], some, sym, refl, arith, length, Bool-cases, ◌==◌,
  Option,
}
use concurrent_kv_store.BinaryIo.{Endian}
use concurrent_kv_store.Main.Recovery.{Restores, Restores-SameView, recover-get}
use concurrent_kv_store.Snapshot.Commit.{IsSnapshot, save_verified-commits}
use concurrent_kv_store.Snapshot.RoundTrip.{snapshot_bytes}
use concurrent_kv_store.Snapshot.Save
use concurrent_kv_store.Snapshot.Types.{Files, SnapshotIo}
use concurrent_kv_store.Store.Data.{get, collect_data}
use concurrent_kv_store.Store.Persistence.{compact_persistence}
use concurrent_kv_store.System.{System, Fits}
use concurrent_kv_store.System.Calls.{compact-leaves}
use concurrent_kv_store.System.Checkpoints.{compacted-Backed}
use concurrent_kv_store.System.Sound.{
  Sound, Backed, Backed-Restores, Memory-IsSnapshot, Memory-collect_data,
}
use concurrent_kv_store.Wal.Append.{sync_locked}
use concurrent_kv_store.Wal.Append.Suffix.{empty-ReplaysFrom}
use concurrent_kv_store.Wal.Replay.View.{View, view, update_all, update_all_twice}
use concurrent_kv_store.Wal.State.{Wal, Io}
use concurrent_kv_store.Wal.Truncate
use concurrent_kv_store.Wal.Types.{u64_max}
use mathlib.Core.Path.{subst}

sync-file : (io : Io) (w : Wal) → (Truncate.sync_unless_buffered io w).1.file ≡ w.file
unfolding Truncate.sync_unless_buffered sync_locked
sync-file io w = ground arith

-- The file of a rotation that ends anywhere.
rotate-file :
    (io : Io) (w : Wal)
    → ((Truncate.rotate io w).1.file ≡ w.file) ⊎ ((Truncate.rotate io w).1.file ≡ [])
unfolding Truncate.rotate Truncate.clear Truncate.next_generation
rotate-file io w = elim (Bool-cases io.before_truncate_hook_throws) [
  | inl a ↦ rw a (inl refl)
  | inr a ↦ elim (Bool-cases (w.generation == u64_max)) [
    | inl b ↦ rw a (rw b (inl refl))
    | inr b ↦ elim (Bool-cases io.open_fails) [
      | inl c ↦ rw a (rw b (rw c (inl refl)))
      | inr c ↦ elim (Bool-cases io.truncate_fails) [
        | inl d ↦ rw a (rw b (rw c (rw d (inr refl))))
        | inr d ↦ elim (Bool-cases io.reopen_fails) [
          | inl e ↦ rw a (rw b (rw c (rw d (rw e (inr refl)))))
          | inr e ↦ rw a (rw b (rw c (rw d (rw e (inr (sync-file _ _))))))
        ]
      ]
    ]
  ]
]

module _ (hash : Bytes → ℕ) (host : Endian) (s : System) (h : Sound hash host s) where
  abbrev memory : View
  memory = λ key. get hash key s.store

  -- The new snapshot, over the whole of the log.
  over_log :
      (committed : Option Bytes)
      → length (collect_data s.store) < 2 ^ 32
      → committed ≡ some (snapshot_bytes host (collect_data s.store) 0)
      → Restores hash host committed h.wal.file memory
  over_log committed count e =
      let backed = compacted-Backed hash host s h committed count e in
      let twice = update_all_twice h.rs h.origin in
      subst (λ (host : Endian). Restores hash host committed h.wal.file memory) h.same_host
        (Restores-SameView hash h.wal.host committed h.wal.file _ memory
          (λ key. twice key ∙ sym (h.memory.same key))
          (Backed-Restores hash h.wal h.rs (update_all h.rs h.origin) committed
            (subst (λ (host : Endian). Backed host h.rs (update_all h.rs h.origin) committed)
              (sym h.same_host) backed)
            h.holds h.room))

  -- The old snapshot, over the part of the log that it does not cover.
  as_before : Restores hash host h.files.committed h.wal.file memory
  as_before =
      subst (λ (host : Endian). Restores hash host h.files.committed h.wal.file memory) h.same_host
        (Restores-SameView hash h.wal.host h.files.committed h.wal.file _ memory
          (λ key. sym (h.memory.same key))
          (Backed-Restores hash h.wal h.rs h.origin h.files.committed
            (subst (λ (host : Endian). Backed host h.rs h.origin h.files.committed)
              (sym h.same_host) h.backed)
            h.holds h.room))

  -- The new snapshot alone.
  over_nothing :
      (committed : Option Bytes)
      → length (collect_data s.store) < 2 ^ 32
      → committed ≡ some (snapshot_bytes host (collect_data s.store) 0)
      → Restores hash host committed [] memory
  over_nothing committed count e =
      Restores-SameView hash host committed [] (view (collect_data s.store)) memory
        (λ key. Memory-collect_data hash s.store _ h.memory key ∙ sym (h.memory.same key))
        (recover-get hash host committed [] (collect_data s.store) 0 []
          (Memory-IsSnapshot hash s.store _ 0 h.memory count (omega arith)) (inl e)
          (empty-ReplaysFrom host 0 (omega arith)))

  -- A compaction leaves files that restore the memory, wherever it ends.
  pub compact-Restores :
      (io : Io) (sio : SnapshotIo)
      → Fits s.store
      → let after = (compact_persistence host io sio s.store).1 in
        (w : Wal) × (files : Files) × (after.wal ≡ some w)
        × (after.snapshot ≡ some files)
        × Restores hash host files.committed w.file memory
  compact-Restores io sio fits =
      let (has_snapshot, _, ends) =
        compact-leaves host io sio s.store h.wal h.files h.has_wal h.has_snapshot in
      let files = (Save.save_verified host sio (collect_data s.store) 0 h.files).1 in
      let snapshot : IsSnapshot (collect_data s.store) 0 =
        Memory-IsSnapshot hash s.store _ 0 h.memory (fits.0) (omega arith) in
      let (either, committed) =
        save_verified-commits host sio (collect_data s.store) 0 h.files snapshot in
      elim ends [
        | inl has_wal ↦ (
          h.wal,
          files,
          has_wal,
          has_snapshot,
          elim either [
            | inl kept ↦
                subst (λ (o : Option Bytes). Restores hash host o h.wal.file memory) (sym kept)
                  as_before
            | inr new ↦ over_log files.committed (fits.0) new
          ],
        )
        | inr (saved, has_wal) ↦ (
          (Truncate.rotate io h.wal).1,
          files,
          has_wal,
          has_snapshot,
          elim (rotate-file io h.wal) [
            | inl old ↦
                subst (λ (file : Bytes). Restores hash host files.committed file memory) (sym old)
                  (over_log files.committed (fits.0) (committed saved))
            | inr empty ↦
                subst (λ (file : Bytes). Restores hash host files.committed file memory) (sym empty)
                  (over_nothing files.committed (fits.0) (committed saved))
          ],
        )
      ]
