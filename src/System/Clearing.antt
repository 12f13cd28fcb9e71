-- ===== src/System/Clearing.antt =====
-- A clearing of the log and of the snapshot.
use concurrent_kv_store.Base.{
  inl, ℕ, ◌≡◌, ◌∙◌, inr, Bytes, [], some, none, returned, true, refl, arith,
}
use concurrent_kv_store.BinaryIo.{Endian}
use concurrent_kv_store.Main.Recovery.{Restores, recover-get}
use concurrent_kv_store.Maps.{find}
use concurrent_kv_store.Snapshot.Commit.{IsSnapshot}
use concurrent_kv_store.Snapshot.Save
use concurrent_kv_store.Snapshot.Types.{Files, SnapshotIo}
use concurrent_kv_store.Store.Persistence.{
  clear_persistence, cancel_pending_checkpoint, reset_writes,
}
use concurrent_kv_store.Store.State.{Store}
use concurrent_kv_store.System.{System}
use concurrent_kv_store.System.Outcomes.{Reachable, Reachable-Sound}
use concurrent_kv_store.Wal.Append.Suffix.{Holds-ReplaysFrom, ReplaysFrom}
use concurrent_kv_store.Wal.State.{Wal, Io}
use concurrent_kv_store.Wal.Truncate
use concurrent_kv_store.Wal.Truncate.Fresh.{rotate-Holds}
use mathlib.Core.Path.{subst}

clear-parts :
    (io : Io) (sio : SnapshotIo) (st : Store) (w : Wal) (fs : Files)
    → st.wal ≡ some w
    → st.snapshot ≡ some fs
    → let p = clear_persistence io sio st in
      returned p.0 ≡ true
      → (returned (Truncate.clear io w).0 ≡ true)
        × (p.1.wal ≡ some (Truncate.clear io w).1)
        × (returned (Save.clear sio fs).0 ≡ true)
        × (p.1.snapshot ≡ some (Save.clear sio fs).1)
        × (p.1.shards ≡ st.shards)
unfolding clear_persistence cancel_pending_checkpoint reset_writes
clear-parts io sio st w fs e f = ground (arith, e, f)

clear-committed :
    (sio : SnapshotIo) (fs : Files)
    → returned (Save.clear sio fs).0 ≡ true
    → (Save.clear sio fs).1.committed ≡ none
unfolding Save.clear
clear-committed sio fs = ground arith

-- On a state that processes reach from no files, and whatever the system and the fault hooks answer,
-- when ClearPersistence returns, the memory is as it was, and recovery from the files on the disk finds
-- no key.
pub clear-Outcome :
    (hash : Bytes → ℕ) (host : Endian) (t : System) (io : Io) (sio : SnapshotIo)
    → Reachable hash host t
    → returned (clear_persistence io sio t.store).0 ≡ true
    → let after = (clear_persistence io sio t.store).1 in
      (v : Wal) × (files : Files) × (after.wal ≡ some v)
      × (after.snapshot ≡ some files)
      × (after.shards ≡ t.store.shards)
      × Restores hash host files.committed v.file (λ key. none)
unfolding Truncate.rotate find
clear-Outcome hash host t io sio reachable done =
    let h = Reachable-Sound hash host t reachable in
    let (cleared, has_wal, removed, has_snapshot, shards) =
      clear-parts io sio t.store h.wal h.files h.has_wal h.has_snapshot done in
    let v = (Truncate.clear io h.wal).1 in
    let files = (Save.clear sio h.files).1 in
    let (holds, same, _) = rotate-Holds io h.wal h.holds.generation_fits h.holds.healthy cleared in
    let replays : ReplaysFrom host v.file 0 [] =
      subst (λ (host : Endian). ReplaysFrom host v.file 0 []) (same ∙ h.same_host)
        (Holds-ReplaysFrom v [] [] 0 holds (inl (refl, refl)) (omega arith) (omega arith)) in
    let blank : IsSnapshot [] 0 = record {
      distinct = tt;
      fields = tt;
      count = omega arith;
      bound = omega arith;
    } in
    (
      v,
      files,
      has_wal,
      has_snapshot,
      shards,
      recover-get hash host files.committed v.file [] 0 [] blank
          (inr (clear-committed sio h.files removed, refl, refl)) replays,
    )
