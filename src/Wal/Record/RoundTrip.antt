-- ===== src/Wal/Record/RoundTrip.antt =====
-- `parse_record` on the bytes of a record.
use concurrent_kv_store.Base.{
  ◌≤◌, length-append, refl, ◌∷◌, append-nil, ℕ, ◌+◌, ◌^◌, ◌<◌, ◌≡◌, Bool, true, false, some, [],
  ◌++◌, arith, Bytes, length,
}
use concurrent_kv_store.BinaryIo.{
  little, big, from_le, from_native, consume_bytes, Endian, native_bytes, consume_primitive,
}
use concurrent_kv_store.BinaryIo.RoundTrip.{
  IsAt-start, IsAt, IsAt-behind, consume_bytes_within, consume_primitive_within, length-le_bytes,
  length-native_bytes, from_native-native_bytes,
}
use concurrent_kv_store.Wal.Codec.Fields.{IsAt-behind_le, consume_le_within}
use concurrent_kv_store.Wal.Record.Parser.{
  consume_sequence, parse_record, accepts, consume_size, parse_set,
}
use mathlib.Core.Path.{subst}
use concurrent_kv_store.Wal.Record.Format.{
  payload_size, HasNoStrayValue, IsStorable, payload_of, record_bytes, reported, sequence_width,
  op_payload, sequence_field, size_bytes,
}
use concurrent_kv_store.Wal.Types.{
  max_record_length, ParsedRecord, WalOp, op_code, max_record_length,
}
use concurrent_kv_store.Wal.Types

pub length-size_bytes :
    (host : Endian) (portable : Bool) (size : ℕ) → length (size_bytes host portable size) ≡ 4
unfolding size_bytes
length-size_bytes host true size = length-le_bytes 4 size
length-size_bytes host false size = length-native_bytes host 4 size

module _ {bytes : Bytes} {offset : ℕ} (host : Endian) (portable : Bool) (size : ℕ)
    (back : Bytes) where
  IsAt-behind_size :
      IsAt bytes offset (size_bytes host portable size ++ back) → IsAt bytes (offset + 4) back
  IsAt-behind_size at =
      subst (λ k. IsAt bytes (offset + k) back) (length-size_bytes host portable size)
        (IsAt-behind (size_bytes host portable size) back at)

consume_size_within :
    (bytes : Bytes) (offset : ℕ) (host : Endian) (portable : Bool) (size : ℕ) (back : Bytes)
    → size < 2 ^ 32
    → IsAt bytes offset (size_bytes host portable size ++ back)
    → consume_size host portable bytes offset ≡ some (size, offset + 4)
unfolding consume_size size_bytes
consume_size_within bytes offset host true size back h at = consume_le_within 4 size back h at
consume_size_within bytes offset host false size back h at =
    subst (λ k. consume_primitive host k bytes offset ≡ some (size, offset + k))
      (length-native_bytes host 4 size)
      (rw (from_native-native_bytes host 4 size h) at
        (consume_primitive_within (native_bytes host 4 size) back at host))

-- A value that ends the record.
parse_set_within :
    (bytes key value : Bytes) (offset : ℕ) (host : Endian) (portable : Bool)
    → length value < 2 ^ 32
    → IsAt bytes offset (size_bytes host portable (length value) ++ value)
    → parse_set host portable bytes key offset
      ≡ accepts (record { op = Types.WalOp.set; key = key; value = value })
unfolding parse_set
parse_set_within bytes key value offset host portable h at =
    rw (consume_size_within bytes offset host portable (length value) value h at) (
      rw (consume_bytes_within value [] behind)
        (ground (arith, (IsAt-behind value [] behind).room)))
  where
    behind : IsAt bytes (offset + 4) (value ++ [])
    behind = rw append-nil (IsAt-behind_size host portable (length value) value at)

consume_sequence_within :
    (portable : Bool) (sequence : ℕ) (back : Bytes)
    → sequence < 2 ^ 64
    → consume_sequence portable (sequence_field portable sequence ++ back)
      ≡ some (reported portable sequence, sequence_width portable)
unfolding consume_sequence sequence_field
consume_sequence_within true sequence back h = consume_le_within 8 sequence back h (IsAt-start _)
consume_sequence_within false sequence back h = refl

IsAt-behind_sequence :
    (portable : Bool) (sequence : ℕ) (back : Bytes)
    → IsAt (sequence_field portable sequence ++ back) (sequence_width portable) back
unfolding sequence_field
IsAt-behind_sequence true sequence back = IsAt-behind_le 8 sequence back (IsAt-start _)
IsAt-behind_sequence false sequence back = IsAt-start back

consume_op_within :
    (bytes : Bytes) (offset : ℕ) (host : Endian) (op : ℕ) (back : Bytes)
    → IsAt bytes offset (op ∷ back)
    → consume_primitive host 1 bytes offset ≡ some (op, offset + 1)
unfolding from_native from_le
consume_op_within bytes offset host op back at =
    subst (λ v. consume_primitive host 1 bytes offset ≡ some (v, offset + 1)) (one_byte host)
      (consume_primitive_within (op ∷ []) back at host)
  where
    one_byte : (host : Endian) → from_native host (op ∷ []) ≡ op
    one_byte little = omega arith
    one_byte big = omega arith

-- The key behind the opcode, with the part of the record that follows it.
module _ (bytes : Bytes) (offset : ℕ) (host : Endian) (portable : Bool) (key back : Bytes)
    (h : length key < 2 ^ 32)
    (at : IsAt bytes offset (size_bytes host portable (length key) ++ (key ++ back))) where
  consume_key_size : consume_size host portable bytes offset ≡ some (length key, offset + 4)
  consume_key_size = consume_size_within bytes offset host portable (length key) (key ++ back) h at

  behind_key_size : IsAt bytes (offset + 4) (key ++ back)
  behind_key_size = IsAt-behind_size host portable (length key) (key ++ back) at

  consume_key : consume_bytes bytes (offset + 4) (length key) ≡ some (key, offset + 4 + length key)
  consume_key = consume_bytes_within key back behind_key_size

  behind_key : IsAt bytes (offset + 4 + length key) back
  behind_key = IsAt-behind key back behind_key_size

parse_payload_set :
    (host : Endian) (portable : Bool) (sequence : ℕ) (key value : Bytes)
    → sequence < 2 ^ 64
    → length key < 2 ^ 32
    → length value < 2 ^ 32
    → parse_record host portable
        (sequence_field portable sequence ++ op_payload host portable Types.WalOp.set key value)
      ≡ accepts
          (record { op = Types.WalOp.set; key = key; value = value }, reported portable sequence)
unfolding parse_record op_payload
parse_payload_set host portable sequence key value hs hk hv =
    rw (consume_sequence_within portable sequence payload hs) (
      rw (consume_op_within bytes (sequence_width portable) host 1 rest start) (
        rw (consume_key_size bytes _ host portable key back hk at) (
          rw (consume_key bytes _ host portable key back hk at) (
            rw (
              parse_set_within bytes key value _ host portable hv
                (behind_key bytes _ host portable key back hk at))))))
  where
    back : Bytes
    back = size_bytes host portable (length value) ++ value

    rest : Bytes
    rest = size_bytes host portable (length key) ++ (key ++ back)

    payload : Bytes
    payload = 1 ∷ rest

    bytes : Bytes
    bytes = sequence_field portable sequence ++ payload

    start : IsAt bytes (sequence_width portable) (1 ∷ rest)
    start = IsAt-behind_sequence portable sequence payload

    at : IsAt bytes (sequence_width portable + 1) rest
    at = IsAt-behind (1 ∷ []) rest start

parse_payload_delete :
    (host : Endian) (portable : Bool) (sequence : ℕ) (key : Bytes)
    → sequence < 2 ^ 64
    → length key < 2 ^ 32
    → parse_record host portable
        (sequence_field portable sequence ++ op_payload host portable Types.WalOp.delete key [])
      ≡ accepts
          (record { op = Types.WalOp.delete; key = key; value = [] }, reported portable sequence)
unfolding parse_record op_payload
parse_payload_delete host portable sequence key hs hk =
    rw (consume_sequence_within portable sequence payload hs) (
      rw (consume_op_within bytes (sequence_width portable) host 2 rest start) (
        rw (consume_key_size bytes _ host portable key [] hk at) (
          rw (consume_key bytes _ host portable key [] hk at)
            (ground (arith, (behind_key bytes _ host portable key [] hk at).room)))))
  where
    rest : Bytes
    rest = size_bytes host portable (length key) ++ key

    payload : Bytes
    payload = 2 ∷ rest

    bytes : Bytes
    bytes = sequence_field portable sequence ++ payload

    start : IsAt bytes (sequence_width portable) (2 ∷ rest)
    start = IsAt-behind_sequence portable sequence payload

    at :
        IsAt bytes
          (sequence_width portable + 1)
          (size_bytes host portable (length key) ++ (key ++ []))
    at = rw append-nil (IsAt-behind (2 ∷ []) rest start)

length-sequence_field :
    (portable : Bool) (sequence : ℕ)
    → length (sequence_field portable sequence) ≡ sequence_width portable
unfolding sequence_field
length-sequence_field true sequence = length-le_bytes 8 sequence
length-sequence_field false sequence = refl

pub length-op_payload :
    (host : Endian) (portable : Bool) (op : WalOp) (key value : Bytes)
    → length (op_payload host portable op key value) ≡ payload_size op key value
unfolding op_payload
length-op_payload host portable Types.WalOp.set key value = omega (
  arith,
  length-append (size_bytes host portable (length key))
      (key ++ (size_bytes host portable (length value) ++ value)),
  length-append key (size_bytes host portable (length value) ++ value),
  length-append (size_bytes host portable (length value)) value,
  length-size_bytes host portable (length key),
  length-size_bytes host portable (length value),
)
length-op_payload host portable Types.WalOp.delete key value = omega (
  arith,
  length-append (size_bytes host portable (length key)) key,
  length-size_bytes host portable (length key),
)

pub length-record_bytes :
    (host : Endian) (portable : Bool) (sequence : ℕ) (r : ParsedRecord)
    → length (record_bytes host portable sequence r)
      ≡ sequence_width portable + payload_size r.op r.key r.value
unfolding record_bytes payload_of
length-record_bytes host portable sequence r = omega (
  arith,
  length-append (sequence_field portable sequence) (op_payload host portable r.op r.key r.value),
  length-sequence_field portable sequence,
  length-op_payload host portable r.op r.key r.value,
)

module _ (host : Endian) (portable : Bool) (sequence : ℕ) (h : sequence < 2 ^ 64) where
  parse_op :
      (op : WalOp) (key value : Bytes)
      → HasNoStrayValue op value
      → payload_size op key value ≤ max_record_length
      → parse_record host portable
          (sequence_field portable sequence ++ op_payload host portable op key value)
        ≡ accepts (record { op = op; key = key; value = value }, reported portable sequence)
  parse_op Types.WalOp.set key value canonical fits =
      parse_payload_set host portable sequence key value h (omega arith) (omega arith)
  parse_op Types.WalOp.delete key value canonical fits =
      rw canonical (parse_payload_delete host portable sequence key h (omega arith))

  -- In the portable and the legacy layout and for both byte orders of the host, the bytes of a record
  -- that holds a storable operation, with a sequence number below 2^64, parse to that operation and, in
  -- the portable layout, to that sequence number.
  pub parse_record-record_bytes :
      (r : ParsedRecord)
      → IsStorable host portable r
      → parse_record host portable (record_bytes host portable sequence r)
        ≡ accepts (r, reported portable sequence)
  unfolding record_bytes payload_of
  parse_record-record_bytes r s =
      parse_op r.op r.key r.value s.canonical
        (omega (arith, s.fits, length-record_bytes host portable 0 r))
