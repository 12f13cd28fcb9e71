-- ===== src/Wal/Replay/Frame.antt =====
-- What one round of the replay loop takes from the stream.
use mathlib.Core.Path.{subst}
use concurrent_kv_store.Base.{
  refl, sym, ap, ◌∙◌, ◌||◌, ◌<◌, ◌≤◌, ◌==◌, ltb, true, false, drop, take-append-drop, length-take,
  ℕ, ◌+◌, ◌≤◌, ◌<◌, ◌≡◌, Bool, ◌++◌, arith, Bytes, length, take, drop, length-append, take-append,
  drop-append, if◌then◌else◌,
}
use concurrent_kv_store.BinaryIo.{Endian, from_le, from_native}
use concurrent_kv_store.Wal.Codec.{crc32}
use concurrent_kv_store.Wal.Record.Parser.{accepts, parse_record}
use concurrent_kv_store.Wal.Replay.{
  stops, Read, stop_if, ◌>>=◌, ◌>>◌, read_record, reads, read_framing_u32, read_checksum,
  read_frame,
}
use concurrent_kv_store.Wal.Types.{WalReplayStatus, ParsedRecord, max_record_length}

pub >>=-eq-reads {ℓ κ} :
    {A : Type ℓ} {B : Type κ} (m : Read A) (f : A → Read B) {b : B}
    → (m >>= f) ≡ reads b
    → (a : A) × (m ≡ reads a) × (f a ≡ reads b)
>>=-eq-reads (reads a) f h = (a, refl, h)
>>=-eq-reads (stops status stop) f h = cc

pub stop_if-reads {κ} :
    {B : Type κ} (bad : Bool) (status : WalReplayStatus) (stop : ℕ) (k : Read B) {b : B}
    → (stop_if bad status stop >> k) ≡ reads b
    → (bad ≡ false) × (k ≡ reads b)
stop_if-reads true status stop k h = cc
stop_if-reads false status stop k h = (refl, h)

-- The value of a framing field.
abbrev pub field_value : Endian → Bool → Bytes → ℕ
field_value host portable field = if portable then from_le field else from_native host field

-- A valid frame: a length field, a checksum field and a record that fit together.
pub record IsFrame (host : Endian) (portable : Bool) (size sum bytes : Bytes)
    (parsed : ParsedRecord) (sequence : ℕ) : Type 0 where
  pub size_width : length size ≡ 4
  pub sum_width : length sum ≡ 4
  pub size_value : field_value host portable size ≡ length bytes
  pub sum_value : field_value host portable sum ≡ crc32 bytes
  pub nonempty : 0 < length bytes
  pub bounded : length bytes ≤ max_record_length
  pub parses : parse_record host portable bytes ≡ accepts (parsed, sequence)

module _ (host : Endian) (portable : Bool) where
  pub read_framing_u32_lem :
      (field rest : Bytes) (cursor : ℕ)
      → length field ≡ 4
      → read_framing_u32 host portable (field ++ rest) cursor
        ≡ reads (field_value host portable field, cursor + 4, rest)
  unfolding read_framing_u32
  read_framing_u32_lem field rest cursor e = ground (
    arith,
    length-append field rest,
    subst (λ n. take n (field ++ rest) ≡ field) e (take-append field rest),
    subst (λ n. drop n (field ++ rest) ≡ rest) e (drop-append field rest),
  )

  read_record_lem :
      (size sum bytes rest : Bytes) (record_start cursor : ℕ) {parsed : ParsedRecord} {sequence : ℕ}
      → IsFrame host portable size sum bytes parsed sequence
      → read_record host portable record_start (length bytes) (crc32 bytes) cursor (bytes ++ rest)
        ≡ reads (parsed, sequence, cursor + length bytes, rest)
  unfolding read_record
  read_record_lem size sum bytes rest record_start cursor f =
      ground
        (arith, length-append bytes rest, take-append bytes rest, drop-append bytes rest, f.parses)

  -- A valid frame at the head of the stream is taken, whatever follows it.
  pub read_frame-IsFrame :
      (size sum bytes rest : Bytes) (cursor : ℕ) {parsed : ParsedRecord} {sequence : ℕ}
      → IsFrame host portable size sum bytes parsed sequence
      → read_frame host portable (size ++ (sum ++ (bytes ++ rest))) cursor
        ≡ reads (parsed, sequence, cursor + 8 + length bytes, rest)
  unfolding read_frame read_checksum
  read_frame-IsFrame size sum bytes rest cursor f = ground (
    arith,
    read_framing_u32_lem size (sum ++ (bytes ++ rest)) cursor f.size_width,
    read_framing_u32_lem sum (bytes ++ rest) (cursor + 4) f.sum_width,
    read_record_lem size sum bytes rest cursor (cursor + 4 + 4) f,
  )

  read_framing_u32-reads :
      (input : Bytes) (cursor : ℕ) {value next : ℕ} {rest : Bytes}
      → read_framing_u32 host portable input cursor ≡ reads (value, next, rest)
      → (length (take 4 input) ≡ 4)
        × (field_value host portable (take 4 input) ≡ value)
        × (next ≡ cursor + 4)
        × (drop 4 input ≡ rest)
  unfolding read_framing_u32
  read_framing_u32-reads input cursor e = ground (arith, length-take 4 input)

  read_checksum-reads :
      (input : Bytes) (cursor record_start : ℕ) {sum next : ℕ} {rest : Bytes}
      → read_checksum host portable input cursor record_start ≡ reads (sum, next, rest)
      → read_framing_u32 host portable input cursor ≡ reads (sum, next, rest)
  unfolding read_checksum
  read_checksum-reads input cursor record_start e = ground arith

  read_record-reads :
      (input : Bytes) (record_start size sum cursor : ℕ) {parsed : ParsedRecord} {sequence next : ℕ}
      {rest : Bytes}
      → read_record host portable record_start size sum cursor input
        ≡ reads (parsed, sequence, next, rest)
      → (length (take size input) ≡ size)
        × (crc32 (take size input) ≡ sum)
        × (parse_record host portable (take size input) ≡ accepts (parsed, sequence))
        × (next ≡ cursor + size)
        × (drop size input ≡ rest)
  unfolding read_record
  read_record-reads input record_start size sum cursor e = ground (arith, length-take size input)

-- What a round took from the stream: a valid frame at its head.
pub record Taken (host : Endian) (portable : Bool) (input : Bytes) (cursor : ℕ)
    (parsed : ParsedRecord) (sequence next : ℕ) (rest : Bytes) : Type 0 where
  pub size : Bytes
  pub sum : Bytes
  pub bytes : Bytes
  pub frame : IsFrame host portable size sum bytes parsed sequence
  pub input_eq : input ≡ size ++ (sum ++ (bytes ++ rest))
  pub next_eq : next ≡ cursor + 8 + length bytes

module _ (host : Endian) (portable : Bool) where
  -- The round behind the two framing fields.
  Taken-record :
      (input after_size after_sum : Bytes) (cursor size at_sum sum at_record : ℕ)
      {parsed : ParsedRecord} {sequence next : ℕ} {rest : Bytes}
      → read_framing_u32 host portable input cursor ≡ reads (size, at_sum, after_size)
      → read_framing_u32 host portable after_size at_sum ≡ reads (sum, at_record, after_sum)
      → (size == 0 || ltb max_record_length size) ≡ false
      → read_record host portable cursor size sum at_record after_sum
        ≡ reads (parsed, sequence, next, rest)
      → Taken host portable input cursor parsed sequence next rest
  Taken-record input after_size after_sum cursor size at_sum sum at_record e1 e2 ok e3 =
      let (w1, v1, n1, d1) = read_framing_u32-reads host portable input cursor e1 in
      let (w2, v2, n2, d2) = read_framing_u32-reads host portable after_size at_sum e2 in
      let (w3, v3, p3, n3, d3) =
        read_record-reads host portable after_sum cursor size sum at_record e3 in
      record {
        size = take 4 input;
        sum = take 4 after_size;
        bytes = take size after_sum;
        frame = record {
          size_width = w1;
          sum_width = w2;
          size_value = v1 ∙ sym w3;
          sum_value = v2 ∙ sym v3;
          nonempty = ground (arith, w3);
          bounded = ground (arith, w3);
          parses = p3;
        };
        input_eq =
            sym (take-append-drop 4 input)
            ∙ ap (λ (l : Bytes). take 4 input ++ l)
                (d1
                  ∙ sym (take-append-drop 4 after_size)
                  ∙ ap (λ (l : Bytes). take 4 after_size ++ l)
                      (d2
                        ∙ sym (take-append-drop size after_sum)
                        ∙ ap (λ (l : Bytes). take size after_sum ++ l) d3));
        next_eq = omega (arith, n1, n2, n3, w3);
      }

  -- A round that takes a record takes a valid frame at the head of the stream.
  pub read_frame-Taken :
      (input : Bytes) (cursor : ℕ) {parsed : ParsedRecord} {sequence next : ℕ} {rest : Bytes}
      → read_frame host portable input cursor ≡ reads (parsed, sequence, next, rest)
      → Taken host portable input cursor parsed sequence next rest
  unfolding read_frame
  read_frame-Taken input cursor e =
      let ((size, at_sum, after_size), e1, r1) =
        >>=-eq-reads (read_framing_u32 host portable input cursor) _ e in
      let (ok, r2) = stop_if-reads _ _ _ _ r1 in
      let ((sum, at_record, after_sum), e2, r3) =
        >>=-eq-reads (read_checksum host portable after_size at_sum cursor) _ r2 in
      Taken-record input after_size after_sum cursor size at_sum sum at_record e1
        (read_checksum-reads host portable after_size at_sum cursor e2) ok r3
