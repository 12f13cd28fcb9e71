-- ===== src/Wal/Record/Format.antt =====
-- The layout of a record, as include/persistence/wal.h and docs/WAL_Format.md state it.
use concurrent_kv_store.Base.{◌+◌, ℕ, ◌≤◌, ◌≡◌, Bool, true, false, [], ◌∷◌, ◌++◌, Bytes, length}
use concurrent_kv_store.BinaryIo.{Endian, le_bytes, native_bytes}
use concurrent_kv_store.Wal.Types.{WalOp, set, delete, ParsedRecord, max_record_length}

-- A length: little-endian in v3, in the host's order in v2.
unfoldable pub size_bytes : Endian → Bool → ℕ → Bytes
size_bytes host true size = le_bytes 4 size
size_bytes host false size = native_bytes host 4 size

-- The opcode, the key and, for SET, the value.
unfoldable pub op_payload : Endian → Bool → WalOp → Bytes → Bytes → Bytes
op_payload host portable set key value =
    1
    ∷ (size_bytes host portable (length key)
        ++ (key ++ (size_bytes host portable (length value) ++ value)))
op_payload host portable delete key value = 2 ∷ (size_bytes host portable (length key) ++ key)

unfoldable pub payload_of : Endian → Bool → ParsedRecord → Bytes
unfolding op_payload
payload_of host portable r = op_payload host portable r.op r.key r.value

-- The sequence number, which a v2 record does not carry.
unfoldable pub sequence_field : Bool → ℕ → Bytes
sequence_field true sequence = le_bytes 8 sequence
sequence_field false sequence = []

unfoldable pub record_bytes : Endian → Bool → ℕ → ParsedRecord → Bytes
unfolding payload_of sequence_field
record_bytes host portable sequence r =
    sequence_field portable sequence ++ payload_of host portable r

-- A DELETE has no value.
abbrev pub HasNoStrayValue : WalOp → Bytes → Type 0
HasNoStrayValue set value = Unit {0}
HasNoStrayValue delete value = value ≡ []

-- What the log takes: a record within the length limit.
pub record IsStorable (host : Endian) (portable : Bool) (r : ParsedRecord) : Type 0 where
  pub canonical : HasNoStrayValue r.op r.value
  pub fits : length (record_bytes host portable 0 r) ≤ max_record_length

-- What the parser reports as the sequence number.
abbrev pub reported : Bool → ℕ → ℕ
reported true sequence = sequence
reported false sequence = 0

-- The width of the sequence number.
abbrev pub sequence_width : Bool → ℕ
sequence_width true = 8
sequence_width false = 0

-- The length of a payload, as `AppendSet` and `AppendDelete` add it up.
abbrev pub payload_size : WalOp → Bytes → Bytes → ℕ
payload_size set key value = 1 + 4 + length key + 4 + length value
payload_size delete key value = 1 + 4 + length key
