-- ===== src/Wal/Record/Payload.antt =====
-- `AppendSet` and `AppendDelete` up to the call of `AppendPayload`.
use concurrent_kv_store.Base.{
  ℕ, ◌+◌, Bool, [], ◌++◌, Bytes, ltb, if◌then◌else◌, Result, ok, throws, ◌>>=◌, ◌>>◌,
  wal_record_too_large, wal_key_too_large, wal_value_too_large,
}
use concurrent_kv_store.BinaryIo.{Endian, native_bytes, checked_size}
use concurrent_kv_store.Wal.Codec.{append_le32}
use concurrent_kv_store.Wal.Types.{op_code, max_record_length}
use concurrent_kv_store.Wal.Types

-- The length, if it is not above the limit.
unfoldable pub checked_record_length : ℕ → Result ℕ
checked_record_length record_length =
    if ltb max_record_length record_length then throws wal_record_too_large else ok record_length

-- `append_primitive`
unfoldable pub append_primitive : Endian → ℕ → Bytes → ℕ → Bytes
unfolding native_bytes
append_primitive host n bytes value = bytes ++ native_bytes host n value

-- A length in the payload: in the host's order in a v2 log, little-endian in v3.
unfoldable pub append_size : Endian → Bool → Bytes → ℕ → Bytes
unfolding append_primitive append_le32
append_size host legacy_v2 bytes size =
    if legacy_v2 then append_primitive host 4 bytes size else append_le32 bytes size

-- `legacy_v2_ ? 0 : sizeof(std::uint64_t)`
abbrev pub sequence_bytes : Bool → ℕ
sequence_bytes legacy_v2 = if legacy_v2 then 0 else 8

unfoldable pub set_payload : Endian → Bool → Bytes → Bytes → Result Bytes
unfolding checked_size checked_record_length append_size
set_payload host legacy_v2 key value = do
  key_size ← checked_size key wal_key_too_large
  value_size ← checked_size value wal_value_too_large
  checked_record_length (1 + 4 + key_size + 4 + value_size + sequence_bytes legacy_v2)
  let payload = append_primitive host 1 [] (op_code Types.WalOp.set)
  let payload = append_size host legacy_v2 payload key_size ++ key
  ok (append_size host legacy_v2 payload value_size ++ value)

unfoldable pub delete_payload : Endian → Bool → Bytes → Result Bytes
unfolding checked_size checked_record_length append_size
delete_payload host legacy_v2 key = do
  key_size ← checked_size key wal_key_too_large
  checked_record_length (1 + 4 + key_size + sequence_bytes legacy_v2)
  let payload = append_primitive host 1 [] (op_code Types.WalOp.delete)
  ok (append_size host legacy_v2 payload key_size ++ key)
