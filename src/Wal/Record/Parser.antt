-- ===== src/Wal/Record/Parser.antt =====
-- `parse_record` and `apply_record` of src/persistence/wal.cpp.
use concurrent_kv_store.Base.{
  ℕ, Bool, true, false, not, ◌&&◌, Option, none, some, [], Bytes, length, ◌==◌, if◌then◌else◌,
}
use concurrent_kv_store.BinaryIo.{Endian, consume_primitive, consume_bytes}
use concurrent_kv_store.Maps.{Map, assign, erase}
use concurrent_kv_store.Wal.Codec.{consume_le}
use concurrent_kv_store.Wal.Types.{
  WalReplayStatus, invalid_opcode, partial_payload, invalid_payload, WalOp, ParsedRecord, op_code,
}
use concurrent_kv_store.Wal.Types

-- A status other than `CleanEof` is a rejection.
pub data Parse {ℓ} (A : Type ℓ) : Type ℓ where
  accepts : A → Parse A
  rejects : WalReplayStatus → Parse A

infixl 5 ◌>>=◌ ◌>>◌
abbrev pub ◌>>=◌ {ℓ κ} : {A : Type ℓ} {B : Type κ} → Parse A → (A → Parse B) → Parse B
accepts a >>= f = f a
rejects status >>= f = rejects status

abbrev pub ◌>>◌ {ℓ κ} : {A : Type ℓ} {B : Type κ} → Parse A → Parse B → Parse B
m >> k = m >>= λ _. k

-- `if (!consume(…)) return PartialPayload;`
abbrev pub need {ℓ} : {A : Type ℓ} → Option A → Parse A
need none = rejects partial_payload
need (some a) = accepts a

-- `if (bad) return status;`
abbrev pub reject_if : Bool → WalReplayStatus → Parse (Unit {0})
reject_if true status = rejects status
reject_if false status = accepts tt

-- `portable ? consume_le(…) : binary_io::ConsumePrimitive(…)`
unfoldable pub consume_size : Endian → Bool → Bytes → ℕ → Option (ℕ × ℕ)
unfolding consume_le consume_primitive
consume_size host portable bytes offset =
    if portable then consume_le 4 bytes offset else consume_primitive host 4 bytes offset

-- The sequence number stays 0 in a v2 record.
unfoldable pub consume_sequence : Bool → Bytes → Option (ℕ × ℕ)
unfolding consume_le
consume_sequence portable bytes = if portable then consume_le 8 bytes 0 else some (0, 0)

-- The value of a SET record, which must end the record.
unfoldable pub parse_set : Endian → Bool → Bytes → Bytes → ℕ → Parse ParsedRecord
unfolding consume_size consume_bytes
parse_set host portable bytes key offset = do
  (value_size, offset) ← need (consume_size host portable bytes offset)
  (value, offset) ← need (consume_bytes bytes offset value_size)
  reject_if (not (offset == length bytes)) invalid_payload
  accepts (record { op = Types.WalOp.set; key = key; value = value })

unfoldable pub parse_delete : Bytes → Bytes → ℕ → Parse ParsedRecord
parse_delete bytes key offset = do
  reject_if (not (offset == length bytes)) invalid_payload
  accepts (record { op = Types.WalOp.delete; key = key; value = [] })

-- The record with its sequence number.
unfoldable pub parse_record : Endian → Bool → Bytes → Parse (ParsedRecord × ℕ)
unfolding consume_sequence consume_primitive parse_set parse_delete
parse_record host portable bytes = do
  (sequence, offset) ← need (consume_sequence portable bytes)
  (op, offset) ← need (consume_primitive host 1 bytes offset)
  reject_if (not (op == op_code Types.WalOp.set) && not (op == op_code Types.WalOp.delete))
      invalid_opcode
  (key_size, offset) ← need (consume_size host portable bytes offset)
  (key, offset) ← need (consume_bytes bytes offset key_size)
  parsed ←
      if op == op_code Types.WalOp.set
      then parse_set host portable bytes key offset
      else parse_delete bytes key offset
  accepts (parsed, sequence)

-- The step on the store map for an operation.
unfoldable pub apply_op : WalOp → Bytes → Bytes → Map → Map
unfolding assign erase
apply_op Types.WalOp.set key value store = assign key value store
apply_op Types.WalOp.delete key value store = erase key store

unfoldable pub apply_record : ParsedRecord → Map → Map
unfolding apply_op
apply_record r store = apply_op r.op r.key r.value store
