-- ===== src/System/Safety.antt =====
-- Every reachable state restores its memory from its files.
use concurrent_kv_store.System.Calls.{Keeps, set-refused, delete-refused, capture-fails}
use concurrent_kv_store.System.Checkpoints.{Keeps-Sound, close_round-Sound}
use concurrent_kv_store.Base.{
  refl, returned, throws, ap, ◌∙◌, none, [], ok, Option, ℕ, ◌≡◌, Bytes, some, sym,
}
use concurrent_kv_store.BinaryIo.{Endian}
use concurrent_kv_store.Main.Recovery.{Restores, Restores-SameView}
use concurrent_kv_store.Snapshot.Types.{Files, SnapshotLoadResult}
use concurrent_kv_store.Store.Data.{get}
use concurrent_kv_store.Store.State.{Store}
use concurrent_kv_store.System
use concurrent_kv_store.System.{System, Step, Reach}
use concurrent_kv_store.System.Checkpoints.{
  wake_up-Sound, capture-Sound, save_captured-Sound, save_snapshot-Sound, compact-Sound,
}
use concurrent_kv_store.System.Sound.{Backed, Sound, Backed-Restores}
use concurrent_kv_store.System.Writes.{set-Sound, delete-Sound}
use concurrent_kv_store.Wal.State.{Wal, Io}
use concurrent_kv_store.Main.{start}
use concurrent_kv_store.System.Start.{first-Sound}
use concurrent_kv_store.System.Restart.{restart-Sound}
use mathlib.Core.Option.{some-injective}
use mathlib.Core.Path.{subst}

-- The files of a store restore its memory.
abbrev pub Durable : (Bytes → ℕ) → Endian → Store → Type 0
Durable hash host st =
    (w : Wal) × (files : Files) × (st.wal ≡ some w)
    × (st.snapshot ≡ some files)
    × Restores hash host files.committed w.file (λ key. get hash key st)

called-Keeps :
    (before called after : Store)
    → called ≡ after
    → after.wal ≡ before.wal
    → called.snapshot ≡ before.snapshot
    → called.shards ≡ before.shards
    → Keeps before after
called-Keeps before called after e same_wal same_snapshot same_shards = (
  same_wal,
  subst (λ (t : Store). t.snapshot ≡ before.snapshot) e same_snapshot,
  subst (λ (t : Store). t.shards ≡ before.shards) e same_shards,
)

module _ (hash : Bytes → ℕ) (host : Endian) where
  step-Sound : {s t : System} → Step hash host s t → Sound hash host s → Sound hash host t
  step-Sound (System.Step.step_set io key value s after e) h =
      set-Sound hash host s h io key value after e
  step-Sound (System.Step.step_delete io key erased s after e) h =
      delete-Sound hash host s h io key erased after e
  step-Sound (System.Step.step_wake epoch s after e) h = wake_up-Sound hash host s h epoch after e
  step-Sound (System.Step.step_capture io entries wal_offset s after idle e fits) h =
      capture-Sound hash host s h io entries wal_offset after e fits
  step-Sound (System.Step.step_save_captured sio entries wal_offset s e) h =
      save_captured-Sound hash host s h sio entries wal_offset e
  step-Sound (System.Step.step_save io sio s idle fits) h =
      save_snapshot-Sound hash host s h io sio fits
  step-Sound (System.Step.step_compact io sio s after idle fits e) h =
      compact-Sound hash host s h io sio after idle fits e
  step-Sound (System.Step.step_refuse_set io key value e s after called same_wal) h =
      let (same_snapshot, same_shards) =
        set-refused hash io key value s.store (ap (λ q. returned q.0) called) in
      Keeps-Sound hash host s h after s.captured
        (called-Keeps s.store _ after (ap (λ q. q.1) called) same_wal same_snapshot same_shards)
        h.flight
  step-Sound (System.Step.step_refuse_delete io key e s after called same_wal) h =
      let (same_snapshot, same_shards) =
        delete-refused hash io key s.store (ap (λ q. returned q.0) called) in
      Keeps-Sound hash host s h after s.captured
        (called-Keeps s.store _ after (ap (λ q. q.1) called) same_wal same_snapshot same_shards)
        h.flight
  step-Sound (System.Step.step_capture_fails io e s after idle called) h =
      close_round-Sound hash host s h (throws e, after)
        (subst (Keeps s.store) (ap (λ q. q.1) called)
          (capture-fails io s.store (ap (λ q. returned q.0) called)))
  step-Sound (System.Step.step_cancelled s idle) h =
      close_round-Sound hash host s h (ok tt, s.store) (refl, refl, refl)
  step-Sound (System.Step.step_restart io w files r s after has_wal has_snapshot e) h =
      let same_log : w ≡ h.wal = some-injective w h.wal (sym has_wal ∙ h.has_wal) in
      let same_files : files ≡ h.files =
        some-injective files h.files (sym has_snapshot ∙ h.has_snapshot) in
      let (sound, same) = restart-Sound hash host s h io r after (
        ap (λ (fs : Files). start hash host io h.wal.file fs) (sym same_files)
        ∙ ap (λ (v : Wal). start hash host io v.file files) (sym same_log)
        ∙ e) in
      sound

  -- Reachable states keep the invariant.
  pub Reach-Sound : {s t : System} → Reach hash host s t → Sound hash host s → Sound hash host t
  Reach-Sound System.Reach.reach_start h = h
  Reach-Sound (System.Reach.reach_step before step) h = step-Sound step (Reach-Sound before h)

  pub Sound-Durable : (s : System) → Sound hash host s → Durable hash host s.store
  Sound-Durable s h = (
    h.wal,
    h.files,
    h.has_wal,
    h.has_snapshot,
    subst
        (λ (host : Endian).
          Restores hash host h.files.committed h.wal.file (λ key. get hash key s.store))
        h.same_host
        (Restores-SameView hash h.wal.host h.files.committed h.wal.file _ _
          (λ key. sym (h.memory.same key))
          (Backed-Restores hash h.wal h.rs h.origin h.files.committed
            (subst (λ (host : Endian). Backed host h.rs h.origin h.files.committed)
              (sym h.same_host) h.backed)
            h.holds h.room)),
  )

  -- Let a process start on an empty log and no snapshot, and let any steps follow: SETs and DELETEs
  -- that return, or that throw and leave the log as it was, rounds of the checkpoint thread that are
  -- cancelled, or fail to capture, or capture the data at one moment and save it later, with writes in
  -- between and whatever the system answers to the save, saves by the caller, compactions that return,
  -- and restarts on the files as they are, under any hash, on a store with fewer than 2^32 entries and
  -- a log shorter than 2^63 bytes at each capture, save and compaction. Then a process that recovers
  -- from the files on the disk, the committed snapshot and the log, has a store that finds each key
  -- exactly as the memory of the running one does.
  pub Reach-Durable :
      (io : Io) (temp : Option Bytes) (r : SnapshotLoadResult × ℕ) (st : Store) (t : System)
      → start hash host io [] (record { committed = none; temp = temp }) ≡ ok (r, st)
      → Reach hash host (record { store = st; captured = none }) t
      → Durable hash host t.store
  Reach-Durable io temp r st t e reach =
      Sound-Durable t (Reach-Sound reach (first-Sound hash host temp io r st e))
