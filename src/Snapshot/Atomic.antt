-- ===== src/Snapshot/Atomic.antt =====
-- The committed file behind `Save`, whatever the system answers.
use concurrent_kv_store.Base.{arith, ◌≡◌, Error, length, ℕ, Bytes, ◌⊎◌, none, some, Option, ok}
use concurrent_kv_store.BinaryIo.{Endian}
use concurrent_kv_store.Maps.{Map}
use concurrent_kv_store.Snapshot.Types.{Files, SnapshotIo}
use concurrent_kv_store.Snapshot.Save.{
  save, write_temp, rename_temp, write_entries, write_metadata, checked_entry_count,
}

-- What a call may leave as the committed file.
abbrev pub Replaces : Files → Bytes × Option Error → Files → Type 0
Replaces before (contents, error) after =
    (after.committed ≡ before.committed) ⊎ ((error ≡ none) × (after.committed ≡ some contents))

-- Whatever the system and the fault hook answer, a save leaves as the committed snapshot the file that
-- was there, or the complete contents that it wrote with no entry refused; and if it returns, the
-- latter.
pub save-Replaces :
    (host : Endian) (io : SnapshotIo) (store : Map) (wal_offset : ℕ) (fs : Files)
    → let written = write_entries host (write_metadata host wal_offset (length store)) store in
      let p = save host io store wal_offset fs in
      Replaces fs written p.1
      × (p.0 ≡ ok tt → (written.1 ≡ none) × (p.1.committed ≡ some written.0))
unfolding save write_temp rename_temp checked_entry_count
save-Replaces host io store wal_offset fs = ground arith
