-- ===== src/System/Outcomes.antt =====
-- What calls on a reachable state leave on the disk.
use concurrent_kv_store.Base.{
  ℕ, ◌≡◌, ◌∙◌, ◌<◌, ◌++◌, [], Bytes, Option, Bool, true, false, none, some, ok, returned, sym, ap,
  take,
}
use concurrent_kv_store.BinaryIo.{Endian}
use concurrent_kv_store.Main.{start}
use concurrent_kv_store.Main.Recovery.{Restores}
use concurrent_kv_store.Snapshot.Types.{Files, SnapshotIo, SnapshotLoadResult}
use concurrent_kv_store.Store.Data.{get, set, delete}
use concurrent_kv_store.Store.Persistence.{compact_persistence}
use concurrent_kv_store.Store.State.{Store}
use concurrent_kv_store.System.{System, Reach, Fits}
use concurrent_kv_store.System.Crash.{EndsWell, RestoresEither}
use concurrent_kv_store.System.Leaves.{set-Leaves, delete-Leaves, cut-Leaves}
use concurrent_kv_store.System.Compaction.{compact-Restores}
use concurrent_kv_store.System.Restart.{restart-Sound}
use concurrent_kv_store.System.Safety.{Reach-Sound}
use concurrent_kv_store.System.Sound.{Sound}
use concurrent_kv_store.System.Start.{first-Sound, restart-returns}
use concurrent_kv_store.Wal.Append.Call.{set_record, delete_record}
use concurrent_kv_store.Wal.Append.Outcome.{to_write}
use concurrent_kv_store.Wal.Record.Format.{IsStorable}
use concurrent_kv_store.Wal.Replay.View.{View, update}
use concurrent_kv_store.Wal.State.{Wal, Io}
use concurrent_kv_store.Wal.Types.{ParsedRecord, u64_max}
use mathlib.Core.Option.{some-injective}
use mathlib.Core.Path.{subst}

-- A state that processes reach from no files.
pub record Reachable (hash : Bytes → ℕ) (host : Endian) (t : System) : Type 0 where
  pub io : Io
  pub temp : Option Bytes
  pub recovered : SnapshotLoadResult × ℕ
  pub first : Store
  pub starts :
      start hash host io [] (record { committed = none; temp = temp }) ≡ ok (recovered, first)
  pub reaches : Reach hash host (record { store = first; captured = none }) t

pub Reachable-Sound :
    (hash : Bytes → ℕ) (host : Endian) (t : System) → Reachable hash host t → Sound hash host t
Reachable-Sound hash host t h =
    Reach-Sound hash host h.reaches (first-Sound hash host h.temp h.io h.recovered h.first h.starts)

-- What a call left: its log and its files, and what they restore.
abbrev pub Leaves : (Bytes → ℕ) → Endian → View → Bool → Store → View → Type 0
Leaves hash host before returns after updated =
    (v : Wal) × (files : Files) × (after.wal ≡ some v)
    × (after.snapshot ≡ some files)
    × EndsWell hash host files.committed returns v.file before updated

module _ (hash : Bytes → ℕ) (host : Endian) (t : System) (h : Reachable hash host t) (w : Wal)
    (has_wal : t.store.wal ≡ some w) where
  sound : Sound hash host t
  sound = Reachable-Sound hash host t h

  same_log : w ≡ sound.wal
  same_log = some-injective w sound.wal (sym has_wal ∙ sound.has_wal)

  abbrev memory : View
  memory = λ key. get hash key t.store

  -- On a state that processes reach from no files, with a sequence number left in the log, and whatever
  -- the system and the fault hook answer, a SET that returns leaves files from which recovery finds the
  -- memory with the key set to the value; a SET that throws leaves files from which it finds the memory
  -- of before, or that with the key set.
  pub set-Outcome :
      (io : Io) (key value : Bytes)
      → w.next_sequence < u64_max
      → let p = set hash io key value t.store in
        Leaves hash host memory (returned p.0) p.1 (update (set_record key value) memory)
  set-Outcome io key value room =
      set-Leaves hash host t sound io key value
        (subst (λ (v : Wal). v.next_sequence < u64_max) same_log room)

  -- On a state that processes reach from no files, with a sequence number left in the log, and whatever
  -- the system and the fault hook answer, a DELETE that returns leaves files from which recovery finds
  -- the memory without the key; a DELETE that throws leaves files from which it finds the memory of
  -- before, or that without the key.
  pub delete-Outcome :
      (io : Io) (key : Bytes)
      → w.next_sequence < u64_max
      → let p = delete hash io key t.store in
        Leaves hash host memory (returned p.0) p.1 (update (delete_record key) memory)
  delete-Outcome io key room =
      delete-Leaves hash host t sound io key
        (subst (λ (v : Wal). v.next_sequence < u64_max) same_log room)

  -- On a state that processes reach from no files, with a sequence number left in the log, let the
  -- process end while the log writes a storable record r, so that the file is the old one followed by
  -- any first part of the header, where that is not yet written, and of the frame of r. Recovery from
  -- that file and the committed snapshot finds the memory of before, or that updated by r.
  pub cut-Outcome :
      (files : Files) (r : ParsedRecord) (k : ℕ) (file : Bytes)
      → t.store.snapshot ≡ some files
      → IsStorable w.host true r
      → w.next_sequence < u64_max
      → file ≡ w.file ++ take k (to_write w r)
      → RestoresEither hash host files.committed file memory (update r memory)
  cut-Outcome files r k file has_snapshot storable room e =
      subst (λ (fs : Files). RestoresEither hash host fs.committed file memory (update r memory))
        (some-injective sound.files files (sym sound.has_snapshot ∙ has_snapshot))
        (cut-Leaves hash host t sound r k file
          (subst (λ (v : Wal). IsStorable v.host true r) same_log storable)
          (subst (λ (v : Wal). v.next_sequence < u64_max) same_log room)
          (subst (λ (v : Wal). file ≡ v.file ++ take k (to_write v r)) same_log e))

  -- On the files of a state that processes reach from no files, a start returns where the system opens,
  -- reads and synchronises them, and its store finds each key exactly as the memory of that state does.
  pub restart-Outcome :
      (files : Files) (io : Io)
      → t.store.snapshot ≡ some files
      → io.open_fails ≡ false
      → io.inspect_fails ≡ false
      → io.sync_fails ≡ false
      → (r : SnapshotLoadResult × ℕ) × (st : Store) × (start hash host io w.file files ≡ ok (r, st))
        × ((key : Bytes) → get hash key st ≡ get hash key t.store)
  restart-Outcome files io has_snapshot opens reads syncs =
      let (r, st, e) = restart-returns hash host t sound io opens reads syncs in
      let same_files : sound.files ≡ files =
        some-injective sound.files files (sym sound.has_snapshot ∙ has_snapshot) in
      let (_, gets) = restart-Sound hash host t sound io r st e in
      (
        r,
        st,
        ap (λ (v : Wal). start hash host io v.file files) same_log
            ∙ ap (λ (fs : Files). start hash host io sound.wal.file fs) (sym same_files)
            ∙ e,
        gets,
      )

-- On a state that processes reach from no files, with fewer than 2^32 entries and a log shorter than
-- 2^63 bytes, and whatever the system and the fault hooks answer, a compaction, be it that it returns
-- or throws at any of its calls, leaves files from which recovery finds exactly the memory.
pub compact-Outcome :
    (hash : Bytes → ℕ) (host : Endian) (t : System) (io : Io) (sio : SnapshotIo)
    → Reachable hash host t
    → Fits t.store
    → let after = (compact_persistence host io sio t.store).1 in
      (v : Wal) × (files : Files) × (after.wal ≡ some v)
      × (after.snapshot ≡ some files)
      × Restores hash host files.committed v.file (λ key. get hash key t.store)
compact-Outcome hash host t io sio h fits =
    compact-Restores hash host t (Reachable-Sound hash host t h) io sio fits
