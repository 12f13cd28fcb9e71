-- ===== src/Wal/Codec/Header.antt =====
-- `make_header` and `parse_header` against each other.
use concurrent_kv_store.Base.{
  ℕ, ◌^◌, ◌≤◌, ◌<◌, ◌≡◌, refl, ap, true, some, ◌++◌, arith, Bytes, length, take,
}
use mathlib.Core.Path.{subst}
use concurrent_kv_store.Base.{length, length-append, take, take-append, sym, ap, ◌∙◌, Bool}
use concurrent_kv_store.BinaryIo.{le_bytes, from_le}
use concurrent_kv_store.BinaryIo.RoundTrip.{from_le-le_bytes}
use concurrent_kv_store.Wal.Codec.{
  append_le32, append_le64, consume_le, crc32, make_header, header_fields, fields_valid,
  parse_header,
}
use concurrent_kv_store.Wal.Codec.Fields.{crc32-lt}
use concurrent_kv_store.Wal.Types.{wal_magic, wal_version, endian_marker, u64_max, header_length}

-- The fields, with any checksum.
abbrev fields : ℕ → ℕ → Bytes
fields generation checksum =
    wal_magic
    ++ (le_bytes 4 wal_version
        ++ (le_bytes 4 endian_marker ++ (le_bytes 8 generation ++ le_bytes 4 checksum)))

body : ℕ → Bytes
body generation =
    wal_magic ++ (le_bytes 4 wal_version ++ (le_bytes 4 endian_marker ++ le_bytes 8 generation))

make_header-fields :
    (generation : ℕ) → make_header generation ≡ fields generation (crc32 (body generation))
unfolding make_header append_le32 append_le64 le_bytes body
make_header-fields generation = refl

fields-bytes :
    (generation checksum : ℕ)
    → header_fields (fields generation checksum)
      ≡ some (
        from_le (le_bytes 4 wal_version),
        from_le (le_bytes 4 endian_marker),
        from_le (le_bytes 8 generation),
        from_le (le_bytes 4 checksum),
      )
unfolding header_fields consume_le le_bytes
fields-bytes generation checksum = refl

header_fields-fields :
    (generation checksum : ℕ)
    → generation ≤ u64_max
    → checksum < 2 ^ 32
    → header_fields (fields generation checksum)
      ≡ some (wal_version, endian_marker, generation, checksum)
header_fields-fields generation checksum hg hc = rw (
  fields-bytes generation checksum,
  from_le-le_bytes 4 wal_version (omega arith),
  from_le-le_bytes 4 endian_marker (omega arith),
  from_le-le_bytes 8 generation (omega arith),
  from_le-le_bytes 4 checksum (omega arith),
)

length-fields : (generation checksum : ℕ) → length (fields generation checksum) ≡ header_length
unfolding le_bytes
length-fields generation checksum = refl

pub length-make_header : (generation : ℕ) → length (make_header generation) ≡ header_length
length-make_header generation =
    ap length (make_header-fields generation) ∙ length-fields generation (crc32 (body generation))

take-body : (generation checksum : ℕ) → take 20 (fields generation checksum) ≡ body generation
unfolding le_bytes body
take-body generation checksum = refl

fields_valid_lem :
    (header : Bytes) (generation checksum : ℕ)
    → 0 < generation
    → checksum ≡ crc32 (take 20 header)
    → fields_valid header (wal_version, endian_marker, generation, checksum) ≡ true
unfolding fields_valid
fields_valid_lem header generation checksum h e = ground arith

take-header : (header rest : Bytes) → length header ≡ 24 → take 24 (header ++ rest) ≡ header
take-header header rest e =
    subst (λ n. take n (header ++ rest) ≡ header) e (take-append header rest)

parse_header_at :
    (header rest : Bytes) (previous version marker generation checksum : ℕ)
    → length header ≡ 24
    → take 4 header ≡ wal_magic
    → header_fields header ≡ some (version, marker, generation, checksum)
    → parse_header (header ++ rest) previous
      ≡ (fields_valid header (version, marker, generation, checksum), generation)
unfolding parse_header
parse_header_at header rest previous version marker generation checksum e m f =
    ground (arith, take-header header rest e, length-append header rest)

-- A header made for a generation from 1 to 2^64 - 1 is accepted, whatever follows it in the file, and
-- yields that generation.
pub parse_header-make_header :
    (generation previous : ℕ) (rest : Bytes)
    → 0 < generation
    → generation ≤ u64_max
    → parse_header (make_header generation ++ rest) previous ≡ (true, generation)
parse_header-make_header generation previous rest h g =
    let sum = crc32 (body generation) in
    rw make_header-fields (
      parse_header_at (fields generation sum) rest previous _ _ _ _ (length-fields generation sum)
        refl (header_fields-fields generation sum g (crc32-lt _))
      ∙ ap (λ (b : Bool). (b, generation))
          (fields_valid_lem (fields generation sum) generation sum h
            (ap crc32 (sym (take-body generation sum)))))

pub take-magic :
    (generation : ℕ) (rest : Bytes) → take 4 (make_header generation ++ rest) ≡ wal_magic
take-magic generation rest = rw make_header-fields
