-- ===== src/Wal/Codec/Fields.antt =====
-- Little-endian fields inside a buffer, and the width of checksums.
use concurrent_kv_store.Base.{drop, take, false, ℕ, ◌+◌, ◌^◌, ◌<◌, ◌≡◌, some, ◌++◌, arith, Bytes}
use mathlib.Core.Path.{subst}
use concurrent_kv_store.BinaryIo.{out_of_bounds, le_bytes}
use concurrent_kv_store.BinaryIo.RoundTrip.{
  length-le_bytes, from_le-le_bytes, out_of_bounds-within, take-within, IsAt, IsAt-behind,
}
use concurrent_kv_store.Wal.Codec.{consume_le, crc32}

module _ {buffer : Bytes} {offset : ℕ} (n value : ℕ) (back : Bytes) (h : value < 256 ^ n) where
  -- What `append_le32` and `append_le64` write is what `consume_le` reads.
  pub consume_le_within :
      IsAt buffer offset (le_bytes n value ++ back)
      → consume_le n buffer offset ≡ some (value, offset + n)
  unfolding consume_le
  consume_le_within at = rw (
    subst (λ k. out_of_bounds buffer offset k ≡ false) (length-le_bytes n value)
        (out_of_bounds-within (le_bytes n value) back at),
    subst (λ k. take k (drop offset buffer) ≡ le_bytes n value) (length-le_bytes n value)
        (take-within (le_bytes n value) back at),
    from_le-le_bytes n value h,
  )

pub IsAt-behind_le :
    {buffer : Bytes} {offset : ℕ} (n value : ℕ) (back : Bytes)
    → IsAt buffer offset (le_bytes n value ++ back)
    → IsAt buffer (offset + n) back
IsAt-behind_le {buffer} {offset} n value back at =
    subst (λ k. IsAt buffer (offset + k) back) (length-le_bytes n value)
      (IsAt-behind (le_bytes n value) back at)

pub crc32-lt : (bytes : Bytes) → crc32 bytes < 2 ^ 32
unfolding crc32
crc32-lt bytes = omega arith
