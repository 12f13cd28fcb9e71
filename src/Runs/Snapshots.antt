-- ===== src/Runs/Snapshots.antt =====
-- A snapshot of a map with one entry.
use concurrent_kv_store.Base.{arith, true, ◌≡◌, ok, refl, some, none, ◌∷◌, []}
use concurrent_kv_store.BinaryIo.{little}
use concurrent_kv_store.Maps.{find, Map}
use concurrent_kv_store.Snapshot.Types.{Files, SnapshotIo, calm}
use concurrent_kv_store.Snapshot.Save.{save, save_verified, write_entries, write_metadata}
use concurrent_kv_store.Snapshot.Load.{load}
use concurrent_kv_store.Snapshot.RoundTrip.{save_verified-load, snapshot_bytes}
use concurrent_kv_store.Snapshot.Atomic.{save-Replaces, Replaces}

abbrev colors : Map
colors = (99 ∷ [], 114 ∷ 101 ∷ 100 ∷ []) ∷ []

abbrev no_files : Files
no_files = record { committed = none; temp = none }

save_verified-load_example :
    let file = snapshot_bytes little colors 24 in
    (save_verified little calm colors 24 no_files
      ≡ (ok tt, record { committed = some file; temp = none }))
    × (load little (some file) []
        ≡ ok (record { loaded = true; entry_count = 1; wal_offset = 24 }, colors))
unfolding find
save_verified-load_example =
    save_verified-load little colors 24 (refl, tt) ((omega arith, omega arith), tt) (omega arith)
      (omega arith) no_files []

-- The rename fails.
abbrev unrenamed : SnapshotIo
unrenamed = record calm { rename_fails = true }

save-Replaces_example :
    let written = write_entries little (write_metadata little 24 1) colors in
    let p = save little unrenamed colors 24 no_files in
    Replaces no_files written p.1
    × (p.0 ≡ ok tt → (written.1 ≡ none) × (p.1.committed ≡ some written.0))
save-Replaces_example = save-Replaces little unrenamed colors 24 no_files
