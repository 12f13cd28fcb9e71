-- ===== src/Snapshot/Save.antt =====
-- `Save`, `SaveVerified` and `Clear` of src/persistence/snapshot.cpp.
use concurrent_kv_store.Base.{
  ℕ, ◌-◌, ◌^◌, not, Option, none, some, [], ◌∷◌, Bytes, length, take, ltb, if◌then◌else◌, Error,
  Result, ok, throws, snapshot_too_many_entries, snapshot_key_too_large, snapshot_value_too_large,
  snapshot_open_failed, snapshot_write_failed, snapshot_sync_failed, snapshot_rename_failed,
  snapshot_verification_failed, snapshot_remove_failed, fault_hook_failed,
}
use concurrent_kv_store.Base.Results
use concurrent_kv_store.BinaryIo.{Endian, write_primitive, write_bytes, checked_size}
use concurrent_kv_store.Maps.{Map}
use concurrent_kv_store.Snapshot.Load.{verify}
use concurrent_kv_store.Snapshot.Types.{
  Files, SnapshotIo, snapshot_magic, snapshot_version, Exec, ◌>>=◌, ◌>>◌, raise_if, lift, modify,
}
use concurrent_kv_store.Wal.State.{whole, torn}

-- `CountType` is a uint32_t.
unfoldable pub checked_entry_count : ℕ → Result ℕ
checked_entry_count count =
    if ltb (2 ^ 32 - 1) count then throws snapshot_too_many_entries else ok count

-- Both sizes are checked before anything is written.
unfoldable pub write_entry : Endian → Bytes → Bytes → Bytes → Result Bytes
write_entry host output key value =
    Results.◌>>=◌ (checked_size key snapshot_key_too_large) λ key_size.
      Results.◌>>=◌ (checked_size value snapshot_value_too_large) λ value_size.
        let output = write_bytes (write_primitive host 4 output key_size) key in
        ok (write_bytes (write_primitive host 4 output value_size) value)

-- The contents of the stream, and the exception that ended the loop.
unfoldable pub write_entries : Endian → Bytes → Map → Bytes × Option Error
write_entries host output [] = (output, none)
write_entries host output ((key, value) ∷ store) = elim (write_entry host output key value) [
  | ok longer ↦ write_entries host longer store
  | throws e ↦ (output, some e)
  | Results.stuck ↦ (output, some snapshot_write_failed)
]

unfoldable pub write_metadata : Endian → ℕ → ℕ → Bytes
write_metadata host wal_offset entry_count =
    let output = write_primitive host 4 [] snapshot_magic in
    let output = write_primitive host 4 output snapshot_version in
    let output = write_primitive host 8 output wal_offset in
    write_primitive host 4 output entry_count

-- The block that writes the temporary file.
unfoldable pub write_temp : Endian → SnapshotIo → Bytes × Option Error → Exec (Unit {0})
write_temp host io (contents, error) fs = elim io.write [
  | torn n ↦ (throws snapshot_write_failed, record fs { temp = some (take n contents) })
  | whole ↦ (elim error [ none ↦ ok tt | some e ↦ throws e ], record fs { temp = some contents })
]

-- `std::rename(temp_path, path_)`
unfoldable pub rename_temp : Files → Files
rename_temp fs = record { committed = fs.temp; temp = none }

unfoldable pub save : Endian → SnapshotIo → Map → ℕ → Exec (Unit {0})
save host io store wal_offset = do
  entry_count ← lift (checked_entry_count (length store))
  raise_if io.open_fails snapshot_open_failed
  write_temp host io (write_entries host (write_metadata host wal_offset entry_count) store)
  raise_if io.after_temp_write_throws fault_hook_failed
  raise_if io.temp_sync_fails snapshot_sync_failed
  raise_if io.after_temp_sync_throws fault_hook_failed
  raise_if io.rename_fails snapshot_rename_failed
  modify rename_temp
  raise_if io.after_rename_throws fault_hook_failed
  raise_if io.directory_sync_fails snapshot_sync_failed
  raise_if io.after_directory_sync_throws fault_hook_failed

unfoldable pub save_verified : Endian → SnapshotIo → Map → ℕ → Exec (Unit {0})
save_verified host io store wal_offset = do
  save host io store wal_offset
  verified ← λ fs. (verify host fs.committed store wal_offset, fs)
  raise_if (not verified) snapshot_verification_failed

-- A missing file counts as removed.
unfoldable pub clear : SnapshotIo → Exec (Unit {0})
clear io = do
  raise_if io.remove_fails snapshot_remove_failed
  modify (λ fs. record fs { committed = none })
  raise_if io.remove_temp_fails snapshot_remove_failed
  modify (λ fs. record fs { temp = none })
  raise_if io.directory_sync_fails snapshot_sync_failed
