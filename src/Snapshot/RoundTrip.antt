-- ===== src/Snapshot/RoundTrip.antt =====
-- The layout of a snapshot file, and `SaveVerified` followed by `Load`.
use concurrent_kv_store.Base.{
  true, ==_refl, true, drop-append, take-append, length-append, ◌∙◌, snapshot_value_too_large, sym,
  arith, ◌-◌, append-nil, le→ltb, All, snapshot_key_too_large, ap, append_assoc, ◌∷◌, [], take,
  drop, ◌≤◌, ◌^◌, ◌≡◌, ◌++◌, length, ◌<◌, Bytes, ℕ, Error, refl, ok, some, none,
}
use concurrent_kv_store.BinaryIo.{
  checked_size, write_bytes, Endian, native_bytes, read_primitive, write_primitive,
}
use concurrent_kv_store.BinaryIo.RoundTrip.{length-native_bytes, from_native-native_bytes}
use concurrent_kv_store.Maps.{Map, IsMap}
use concurrent_kv_store.Maps.Laws.{map_eq_refl, assign-fresh, IsMap-fresh}
use concurrent_kv_store.Snapshot.Types.{
  calm, Files, snapshot_version, snapshot_magic, max_snapshot_field_length,
}
use concurrent_kv_store.Snapshot.Load.{
  verify, read_metadata, read_start, load, read_field, read_entry, read_entries,
}
use concurrent_kv_store.Snapshot.Save.{
  rename_temp, write_temp, checked_entry_count, save, save_verified, write_metadata, write_entry,
  write_entries,
}
use mathlib.Core.Path.{subst}

-- The layout of an entry.
unfoldable pub field_bytes : Endian → Bytes → Bytes
field_bytes host bytes = native_bytes host 4 (length bytes) ++ bytes

unfoldable pub entries_bytes : Endian → Map → Bytes
entries_bytes host [] = []
entries_bytes host ((key, value) ∷ store) =
    field_bytes host key ++ (field_bytes host value ++ entries_bytes host store)

-- An entry that the loader takes.
abbrev pub IsLoadable : Bytes × Bytes → Type 0
IsLoadable (key, value) =
    (length key ≤ max_snapshot_field_length) × (length value ≤ max_snapshot_field_length)

module _ (host : Endian) where
  read_primitive_lem :
      (n value : ℕ) (rest : Bytes)
      → value < 256 ^ n
      → read_primitive host n (native_bytes host n value ++ rest) ≡ some (value, rest)
  unfolding read_primitive
  read_primitive_lem n value rest h =
      let bytes = native_bytes host n value in
      let size : length bytes ≡ n = length-native_bytes host n value in
      let t : take n (bytes ++ rest) ≡ bytes =
        ap (λ (k : ℕ). take k (bytes ++ rest)) (sym size) ∙ take-append bytes rest in
      let d : drop n (bytes ++ rest) ≡ rest =
        ap (λ (k : ℕ). drop k (bytes ++ rest)) (sym size) ∙ drop-append bytes rest in
      rw (le→ltb (length (bytes ++ rest)) n (omega (arith, length-append bytes rest, size)), t, d)
        (rw (from_native-native_bytes host n value h) refl)

  read_field_lem :
      (error : Error) (bytes rest : Bytes)
      → length bytes ≤ max_snapshot_field_length
      → read_field host error (field_bytes host bytes ++ rest) ≡ ok (some (bytes, rest))
  unfolding read_field field_bytes
  read_field_lem error bytes rest h =
      rw (append_assoc (native_bytes host 4 (length bytes)) bytes rest) (
        rw (read_primitive_lem 4 (length bytes) (bytes ++ rest) (omega arith), read_field)
          (rw
            (
              le→ltb max_snapshot_field_length (length bytes) h,
              le→ltb (length (bytes ++ rest)) (length bytes)
                  (omega (arith, length-append bytes rest)),
              take-append bytes rest,
              drop-append bytes rest,
            )
            refl))

  write_entry_lem :
      (output key value : Bytes)
      → IsLoadable (key, value)
      → write_entry host output key value
        ≡ ok (output ++ (field_bytes host key ++ field_bytes host value))
  unfolding write_entry field_bytes write_primitive write_bytes checked_size
  write_entry_lem output key value h =
      rw
        (
          le→ltb (2 ^ 32 - 1) (length key) (omega (arith, h.0)),
          le→ltb (2 ^ 32 - 1) (length value) (omega (arith, h.1)),
        )
        (simp append_assoc)

  read_entry_lem :
      (key value rest : Bytes)
      → IsLoadable (key, value)
      → read_entry host (field_bytes host key ++ (field_bytes host value ++ rest))
        ≡ ok (some (key, value, rest))
  unfolding read_entry
  read_entry_lem key value rest h =
      rw (read_field_lem snapshot_key_too_large key (field_bytes host value ++ rest) (h.0))
        (rw (read_field_lem snapshot_value_too_large value rest (h.1)) refl)

  -- The loop of `Save` writes the entries one after the other.
  write_entries_lem :
      (output : Bytes) (store : Map)
      → All IsLoadable store
      → write_entries host output store ≡ (output ++ entries_bytes host store, none)
  unfolding write_entries entries_bytes
  write_entries_lem output [] h = rw (append-nil output) refl
  write_entries_lem output ((key, value) ∷ store) h =
      rw (write_entry_lem output key value (h.0), write_entries)
        (write_entries_lem (output ++ (field_bytes host key ++ field_bytes host value)) store (h.1)
          ∙ rw
              (
                append_assoc output (field_bytes host key ++ field_bytes host value)
                    (entries_bytes host store),
                append_assoc (field_bytes host key) (field_bytes host value)
                    (entries_bytes host store),
              )
              refl)

  -- The loop of `Load` reads them back behind what it has loaded.
  read_entries_lem :
      (loaded store : Map)
      → IsMap (loaded ++ store)
      → All IsLoadable store
      → read_entries host (length store) (entries_bytes host store) loaded ≡ ok (loaded ++ store)
  unfolding read_entries entries_bytes
  read_entries_lem loaded [] m h = rw (append-nil loaded) refl
  read_entries_lem loaded ((key, value) ∷ store) m h =
      let e : (loaded ++ (key, value) ∷ []) ++ store ≡ loaded ++ (key, value) ∷ store =
        append_assoc loaded ((key, value) ∷ []) store in
      rw (read_entry_lem key value (entries_bytes host store) (h.0), read_entries)
        (rw (assign-fresh key value loaded (IsMap-fresh loaded key value store m)) (
          read_entries_lem (loaded ++ (key, value) ∷ []) store (subst IsMap (sym e) m) (h.1)
          ∙ ap ok e))

-- The contents of a snapshot file.
unfoldable pub snapshot_bytes : Endian → Map → ℕ → Bytes
snapshot_bytes host store wal_offset =
    write_metadata host wal_offset (length store) ++ entries_bytes host store

module _ (host : Endian) (store : Map) (wal_offset : ℕ) (m : IsMap store)
    (fields : All IsLoadable store) (count : length store < 2 ^ 32)
    (offset : wal_offset < 2 ^ 64) where
  abbrev after_magic : Bytes
  after_magic =
      native_bytes host 4 snapshot_version
      ++ (native_bytes host 8 wal_offset
          ++ (native_bytes host 4 (length store) ++ entries_bytes host store))

  snapshot_bytes_lem :
      snapshot_bytes host store wal_offset ≡ native_bytes host 4 snapshot_magic ++ after_magic
  unfolding snapshot_bytes write_metadata write_primitive
  snapshot_bytes_lem = simp append_assoc

  read_metadata_lem :
      read_metadata host after_magic ≡ ok (wal_offset, length store, entries_bytes host store)
  unfolding read_metadata
  read_metadata_lem =
      rw
        (
          read_primitive_lem host 4 snapshot_version
              (native_bytes host 8 wal_offset
                ++ (native_bytes host 4 (length store) ++ entries_bytes host store))
              (omega arith),
          read_metadata,
        )
        (rw
          (read_primitive_lem host 8 wal_offset
            (native_bytes host 4 (length store) ++ entries_bytes host store) (omega arith))
          (rw (read_primitive_lem host 4 (length store) (entries_bytes host store) (omega arith))
            refl))

  -- A load of what a save of `store` writes yields `store` and the offset, whatever was there before.
  pub load-snapshot_bytes :
      (before : Map)
      → load host (some (snapshot_bytes host store wal_offset)) before
        ≡ ok (record { loaded = true; entry_count = length store; wal_offset = wal_offset }, store)
  unfolding load read_start
  load-snapshot_bytes before =
      rw (snapshot_bytes_lem, load)
        (rw (read_primitive_lem host 4 snapshot_magic after_magic (omega arith))
          (rw read_metadata_lem (rw (read_entries_lem host [] store m fields) refl)))

  verify-snapshot_bytes :
      verify host (some (snapshot_bytes host store wal_offset)) store wal_offset ≡ ok true
  unfolding verify
  verify-snapshot_bytes =
      rw (load-snapshot_bytes [])
        (rw (==_refl (length store), ==_refl wal_offset, map_eq_refl store m) refl)

  pub write_lem :
      write_entries host (write_metadata host wal_offset (length store)) store
      ≡ (snapshot_bytes host store wal_offset, none)
  unfolding snapshot_bytes
  write_lem = write_entries_lem host (write_metadata host wal_offset (length store)) store fields

  -- When nothing fails, a verified save of a map whose keys differ, of fewer than 2^32 entries with
  -- keys and values of at most 64 MiB, and of an offset below 2^64, returns, with the snapshot of the
  -- map as the committed file and no temporary file, whatever the files were before; and a load of that
  -- file yields exactly the map, the number of its entries and the offset.
  pub save_verified-load :
      (fs : Files) (before : Map)
      → let file = snapshot_bytes host store wal_offset in
        (save_verified host calm store wal_offset fs
          ≡ (ok tt, record { committed = some file; temp = none }))
        × (load host (some file) before
            ≡ ok (
              record { loaded = true; entry_count = length store; wal_offset = wal_offset },
              store,
            ))
  unfolding save_verified save checked_entry_count write_temp rename_temp
  save_verified-load fs before = (
    rw (le→ltb (2 ^ 32 - 1) (length store) (omega arith))
        (rw write_lem (rw verify-snapshot_bytes refl)),
    load-snapshot_bytes before,
  )
