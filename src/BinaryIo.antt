-- ===== src/BinaryIo.antt =====
-- include/persistence/binary_io.h: byte strings of fixed-size integers, and bounded reads of a buffer.
-- The byte order of the host that the program runs on is an argument of what copies raw memory.
pub mod RoundTrip
use concurrent_kv_store.Base.{
  ℕ, zero, suc, ◌+◌, ◌-◌, ◌*◌, ◌/◌, ◌%◌, ◌^◌, Bool, ◌||◌, Option, none, some, List, [], ◌∷◌, ◌++◌,
  Bytes, length, take, drop, ltb, if◌then◌else◌, Error, Result, ok, throws,
}
use mathlib.Core.List.{reverse}

-- The bytes of an n-byte unsigned integer, lowest first: the low byte, then those of `value >> 8`.
unfoldable pub le_bytes : ℕ → ℕ → Bytes
le_bytes zero value = []
le_bytes (suc n) value = value % 256 ∷ le_bytes n (value / 256)

-- The integer that such bytes stand for: `byte | (the rest << 8)`, of disjoint bits.
unfoldable pub from_le : Bytes → ℕ
from_le [] = 0
from_le (b ∷ bs) = b + 256 * from_le bs

pub data Endian : Type 0 where
  little big : Endian

-- The object representation of an integer of n bytes, as `reinterpret_cast<const char*>` shows it.
unfoldable pub native_bytes : Endian → ℕ → ℕ → Bytes
unfolding le_bytes
native_bytes little n value = le_bytes n value
native_bytes big n value = reverse (le_bytes n value)

-- The integer whose object representation `memcpy` fills in.
unfoldable pub from_native : Endian → Bytes → ℕ
unfolding from_le
from_native little bs = from_le bs
from_native big bs = from_le (reverse bs)

-- `WritePrimitive` on a stream that accepts the bytes: the stream's contents grow.
unfoldable pub write_primitive : Endian → ℕ → Bytes → ℕ → Bytes
unfolding native_bytes
write_primitive host n out value = out ++ native_bytes host n value

unfoldable pub write_bytes : Bytes → Bytes → Bytes
write_bytes out bytes = out ++ bytes

-- `ReadPrimitive`: the value and what the stream holds behind it; `none` on a short read.
unfoldable pub read_primitive : Endian → ℕ → Bytes → Option (ℕ × Bytes)
unfolding from_native
read_primitive host n input =
    if ltb (length input) n then none else some (from_native host (take n input), drop n input)

-- `SizeType` is a uint32_t.
unfoldable pub checked_size : Bytes → Error → Result ℕ
checked_size bytes too_large =
    if ltb (2 ^ 32 - 1) (length bytes) then throws too_large else ok (length bytes)

-- `offset > buffer.size() || buffer.size() - offset < size`
abbrev pub out_of_bounds : Bytes → ℕ → ℕ → Bool
out_of_bounds buffer offset size = ltb (length buffer) offset || ltb (length buffer - offset) size

-- The value with the offset behind it.
unfoldable pub consume_primitive : Endian → ℕ → Bytes → ℕ → Option (ℕ × ℕ)
unfolding from_native
consume_primitive host n buffer offset =
    if out_of_bounds buffer offset n
    then none
    else some (from_native host (take n (drop offset buffer)), offset + n)

unfoldable pub consume_bytes : Bytes → ℕ → ℕ → Option (Bytes × ℕ)
consume_bytes buffer offset size =
    if out_of_bounds buffer offset size
    then none
    else some (take size (drop offset buffer), offset + size)
