-- ===== src/Snapshot/Load.antt =====
-- `Load` and `Verify` of src/persistence/snapshot.cpp.
use concurrent_kv_store.Base.{
  Error, ℕ, zero, suc, Bool, true, false, not, ◌&&◌, Option, none, some, [], Bytes, length, take,
  drop, ltb, ◌==◌, if◌then◌else◌, Result, ok, throws, ◌>>=◌, snapshot_key_too_large,
  snapshot_value_too_large, snapshot_metadata_failed, snapshot_load_failed,
}
use concurrent_kv_store.BinaryIo.{Endian, read_primitive}
use concurrent_kv_store.Maps.{Map, assign, map_eq}
use concurrent_kv_store.Snapshot.Types.{
  SnapshotLoadResult, snapshot_magic, snapshot_version, max_snapshot_field_length,
}

-- A length-prefixed field; `none` on a short read, which fails the stream.
unfoldable pub read_field : Endian → Error → Bytes → Result (Option (Bytes × Bytes))
read_field host too_large input = elim (read_primitive host 4 input) [
  | none ↦ ok none
  | some (size, rest) ↦
      if ltb max_snapshot_field_length size
      then throws too_large
      else if ltb (length rest) size
      then ok none
      else ok (some (take size rest, drop size rest))
]

-- Key, value and what the stream holds behind them; `none` is `return false`.
unfoldable pub read_entry : Endian → Bytes → Result (Option (Bytes × Bytes × Bytes))
read_entry host input = do
  found ← read_field host snapshot_key_too_large input
  elim found [
    | none ↦ ok none
    | some (key, input) ↦ (do
      found ← read_field host snapshot_value_too_large input
      elim found [ none ↦ ok none | some (value, input) ↦ ok (some (key, value, input)) ])
  ]

-- The `for` loop over the entries that are still to be read.
unfoldable pub read_entries : Endian → ℕ → Bytes → Map → Result Map
read_entries host zero input loaded = ok loaded
read_entries host (suc left) input loaded = do
  entry ← read_entry host input
  elim entry [
    | none ↦ throws snapshot_load_failed
    | some (key, value, rest) ↦ read_entries host left rest (assign key value loaded)
  ]

-- The fields behind the magic number: WAL offset, entry count and the rest of the stream.
unfoldable pub read_metadata : Endian → Bytes → Result (ℕ × ℕ × Bytes)
read_metadata host input = elim (read_primitive host 4 input) [
  | none ↦ throws snapshot_metadata_failed
  | some (version, input) ↦
      if not (version == snapshot_version)
      then throws snapshot_metadata_failed
      else elim (read_primitive host 8 input) [
        | none ↦ throws snapshot_metadata_failed
        | some (wal_offset, input) ↦ elim (read_primitive host 4 input) [
          | none ↦ throws snapshot_metadata_failed
          | some (entry_count, input) ↦ ok (wal_offset, entry_count, input)
        ]
      ]
]

-- A legacy snapshot starts with the entry count and covers no WAL bytes.
unfoldable pub read_start : Endian → ℕ → Bytes → Result (ℕ × ℕ × Bytes)
read_start host first_field input =
    if first_field == snapshot_magic then read_metadata host input else ok (0, first_field, input)

abbrev pub not_loaded : SnapshotLoadResult
not_loaded = record { loaded = false; entry_count = 0; wal_offset = 0 }

-- `Load(store)` on the contents of the file, `none` if it cannot be opened.
unfoldable pub load : Endian → Option Bytes → Map → Result (SnapshotLoadResult × Map)
load host none store = ok (not_loaded, store)
load host (some file) store = elim (read_primitive host 4 file) [
  | none ↦ ok (not_loaded, store)
  | some (first_field, input) ↦ (do
    (wal_offset, entry_count, input) ← read_start host first_field input
    loaded ← read_entries host entry_count input []
    ok (record { loaded = true; entry_count = entry_count; wal_offset = wal_offset }, loaded))
]

unfoldable pub verify : Endian → Option Bytes → Map → ℕ → Result Bool
verify host file expected_store expected_wal_offset = do
  (result, loaded) ← load host file []
  ok (
      result.loaded
      && (result.entry_count == length expected_store
          && (result.wal_offset == expected_wal_offset && map_eq loaded expected_store)))
