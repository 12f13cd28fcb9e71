-- ===== src/Wal/Codec.antt =====
-- Little-endian fields, CRC32 and the file header of src/persistence/wal.cpp.
use Prim.Native.Nat.{bit_and, bit_xor}
pub mod Fields
pub mod Header
use concurrent_kv_store.Base.{
  ℕ, Bool, false, zero, suc, ◌+◌, ◌-◌, ◌/◌, ◌%◌, ◌^◌, not, ◌&&◌, Option, none, some, List, [], ◌∷◌,
  ◌++◌, Bytes, bytes_discrete, ite, length, take, drop, get_or, ltb, ◌==◌, if◌then◌else◌,
}
use concurrent_kv_store.Base.Options.{◌>>=◌}
use concurrent_kv_store.BinaryIo.{le_bytes, from_le, out_of_bounds}
use concurrent_kv_store.Wal.Types.{wal_magic, wal_version, endian_marker, header_length}

unfoldable pub append_le32 : Bytes → ℕ → Bytes
unfolding le_bytes
append_le32 bytes value = bytes ++ le_bytes 4 value

unfoldable pub append_le64 : Bytes → ℕ → Bytes
unfolding le_bytes
append_le64 bytes value = bytes ++ le_bytes 8 value

-- n is `sizeof(T)`.
unfoldable pub consume_le : ℕ → Bytes → ℕ → Option (ℕ × ℕ)
unfolding from_le
consume_le n bytes offset =
    if out_of_bounds bytes offset n
    then none
    else some (from_le (take n (drop offset bytes)), offset + n)

-- One of the eight rounds of an entry; the mask `0U - (entry & 1U)` keeps the polynomial or nothing.
unfoldable pub crc32_round : ℕ → ℕ
crc32_round entry =
    let mask = (2 ^ 32 - bit_and entry 1) % 2 ^ 32 in bit_xor (entry / 2) (bit_and 0xEDB88320 mask)

unfoldable pub crc32_rounds : ℕ → ℕ → ℕ
unfolding crc32_round
crc32_rounds zero entry = entry
crc32_rounds (suc bit) entry = crc32_rounds bit (crc32_round entry)

-- The entries for i, i + 1, …
unfoldable pub crc32_entries : ℕ → ℕ → List ℕ
unfolding crc32_rounds
crc32_entries zero i = []
crc32_entries (suc n) i = crc32_rounds 8 i ∷ crc32_entries n (i + 1)

unfoldable pub make_crc32_table : List ℕ
unfolding crc32_entries
make_crc32_table = crc32_entries 256 0

unfoldable pub crc32_loop : ℕ → Bytes → ℕ
unfolding make_crc32_table
crc32_loop crc [] = crc
crc32_loop crc (byte ∷ bytes) =
    crc32_loop (bit_xor (crc / 2 ^ 8) (get_or make_crc32_table (bit_and (bit_xor crc byte) 0xFF) 0))
      bytes

-- `~crc` in 32 bits
unfoldable pub crc32 : Bytes → ℕ
unfolding crc32_loop
crc32 bytes = 2 ^ 32 - 1 - crc32_loop 0xFFFFFFFF bytes

unfoldable pub make_header : ℕ → Bytes
unfolding append_le32 append_le64 crc32
make_header generation =
    let header =
      append_le64 (append_le32 (append_le32 wal_magic wal_version) endian_marker) generation in
    append_le32 header (crc32 header)

-- Version, byte-order marker, generation and checksum.
unfoldable pub header_fields : Bytes → Option (ℕ × ℕ × ℕ × ℕ)
unfolding consume_le
header_fields header = do
  (version, offset) ← consume_le 4 header (length wal_magic)
  (marker, offset) ← consume_le 4 header offset
  (generation, offset) ← consume_le 8 header offset
  (checksum, offset) ← consume_le 4 header offset
  some (version, marker, generation, checksum)

unfoldable pub fields_valid : Bytes → ℕ × ℕ × ℕ × ℕ → Bool
unfolding crc32
fields_valid header (version, marker, generation, checksum) =
    version == wal_version
    && (marker == endian_marker
        && (not (generation == 0) && checksum == crc32 (take (header_length - 4) header)))

-- Whether the file begins with a valid header, and what is left in `generation`: the field is written
-- there before it is judged. A short `read` fails the stream; the fields of a whole header are there.
unfoldable pub parse_header : Bytes → ℕ → Bool × ℕ
unfolding header_fields fields_valid
parse_header input generation =
    let header = take header_length input in
    if ltb (length input) header_length
    then (false, generation)
    else ite (bytes_discrete (take (length wal_magic) header) wal_magic)
        (elim (header_fields header) [
          | none ↦ (false, generation)
          | some (version, marker, found, checksum) ↦
              (fields_valid header (version, marker, found, checksum), found)
        ])
        (false, generation)
