-- ===== src/BinaryIo/RoundTrip.antt =====
-- Writing and reading of fixed-size integers and byte strings.
use mathlib.Core.List.{reverse, reverse-reverse}
use concurrent_kv_store.Base.{
  ℕ, zero, suc, ◌+◌, ◌*◌, ◌/◌, ◌^◌, ◌<◌, ◌≡◌, refl, ap, ◌∙◌, false, some, List, [], ◌∷◌, ◌++◌,
  arith, Bytes, IsByte, All, length, length-append, take, drop, take-append, drop-append,
}
use concurrent_kv_store.Base.{drop-drop, sym}
use concurrent_kv_store.BinaryIo.{
  le_bytes, from_le, Endian, little, big, native_bytes, from_native, out_of_bounds,
  consume_primitive, consume_bytes,
}
use mathlib.Core.List.{reverse-append}

pub length-le_bytes : (n value : ℕ) → length (le_bytes n value) ≡ n
unfolding le_bytes
length-le_bytes zero value = refl
length-le_bytes (suc n) value = ap suc (length-le_bytes n (value / 256))

pub le_bytes-IsByte : (n value : ℕ) → All IsByte (le_bytes n value)
unfolding le_bytes
le_bytes-IsByte zero value = tt
le_bytes-IsByte (suc n) value = (omega arith, le_bytes-IsByte n (value / 256))

pow_256 : (n : ℕ) → 256 ^ suc n ≡ 256 ^ n * 256
pow_256 n = omega arith

pub from_le-le_bytes : (n value : ℕ) → value < 256 ^ n → from_le (le_bytes n value) ≡ value
unfolding le_bytes from_le
from_le-le_bytes zero value h = omega arith
from_le-le_bytes (suc n) value h =
    omega (arith, from_le-le_bytes n (value / 256) (omega (arith, pow_256 n)))

length-snoc {ℓ} : {A : Type ℓ} (xs : List A) (a : A) → length (xs ++ a ∷ []) ≡ suc (length xs)
length-snoc xs a = omega (arith, length-append xs (a ∷ []))

pub length-reverse {ℓ} : {A : Type ℓ} (xs : List A) → length (reverse xs) ≡ length xs
length-reverse [] = refl
length-reverse (x ∷ xs) =
    ap length (reverse-append (x ∷ []) xs) ∙ length-snoc (reverse xs) x ∙ ap suc (length-reverse xs)

pub length-native_bytes : (host : Endian) (n value : ℕ) → length (native_bytes host n value) ≡ n
unfolding native_bytes
length-native_bytes little n value = length-le_bytes n value
length-native_bytes big n value = length-reverse (le_bytes n value) ∙ length-le_bytes n value

pub from_native-native_bytes :
    (host : Endian) (n value : ℕ)
    → value < 256 ^ n
    → from_native host (native_bytes host n value) ≡ value
unfolding native_bytes from_native
from_native-native_bytes little n value h = from_le-le_bytes n value h
from_native-native_bytes big n value h =
    ap from_le (reverse-reverse (le_bytes n value)) ∙ from_le-le_bytes n value h

-- `rest` is what a buffer holds from `offset` on.
pub record IsAt (buffer : Bytes) (offset : ℕ) (rest : Bytes) : Type 0 where
  pub holds : drop offset buffer ≡ rest
  pub room : length buffer ≡ offset + length rest

pub IsAt-start : (buffer : Bytes) → IsAt buffer 0 buffer
IsAt-start buffer = record { holds = refl; room = omega arith }

module _ {buffer : Bytes} {offset : ℕ} (middle back : Bytes)
    (at : IsAt buffer offset (middle ++ back)) where
  pub out_of_bounds-within : out_of_bounds buffer offset (length middle) ≡ false
  out_of_bounds-within = ground (arith, length-append middle back, at.room)

  pub take-within : take (length middle) (drop offset buffer) ≡ middle
  take-within = ap (take (length middle)) at.holds ∙ take-append middle back

  pub IsAt-behind : IsAt buffer (offset + length middle) back
  IsAt-behind = record {
    holds =
        sym (drop-drop offset (length middle) buffer)
        ∙ ap (drop (length middle)) at.holds
        ∙ drop-append middle back;
    room = omega (arith, at.room, length-append middle back);
  }

  pub consume_bytes_within :
      consume_bytes buffer offset (length middle) ≡ some (middle, offset + length middle)
  unfolding consume_bytes
  consume_bytes_within = rw (out_of_bounds-within, take-within)

  pub consume_primitive_within :
      (host : Endian)
      → consume_primitive host (length middle) buffer offset
        ≡ some (from_native host middle, offset + length middle)
  unfolding consume_primitive
  consume_primitive_within host = rw (out_of_bounds-within, take-within)
