-- ===== src/Wal/Replay/Written.antt =====
-- A log as the writer lays it out, and its replay record by record.
use concurrent_kv_store.Base.{
  ℕ, suc, ◌+◌, ◌^◌, ◌≤◌, ◌<◌, ◌≡◌, sym, ap, ◌∙◌, Bool, true, false, List, [], ◌∷◌, ◌++◌, arith,
  Bytes, length, length-append, append_assoc,
}
use concurrent_kv_store.BinaryIo.{Endian}
use concurrent_kv_store.BinaryIo.RoundTrip.{from_le-le_bytes, from_native-native_bytes}
use concurrent_kv_store.Maps.{Map}
use concurrent_kv_store.Wal.Codec.{crc32}
use concurrent_kv_store.Wal.Codec.Fields.{crc32-lt}
use concurrent_kv_store.Wal.Record.Format.{
  size_bytes, record_bytes, IsStorable, reported, payload_size,
}
use concurrent_kv_store.Wal.Record.Parser.{apply_record}
use concurrent_kv_store.Wal.Record.RoundTrip.{
  length-size_bytes, length-record_bytes, parse_record-record_bytes,
}
use concurrent_kv_store.Wal.Replay.{reads, read_frame}
use concurrent_kv_store.Wal.Replay.Frame.{field_value, IsFrame, read_frame-IsFrame}
use concurrent_kv_store.Wal.Types
use concurrent_kv_store.Wal.Types.{WalOp, WalReplayResult, ParsedRecord, max_record_length}

-- `[record_length][crc32(record)][record]`
unfoldable pub frame_bytes : Endian → Bool → ℕ → ParsedRecord → Bytes
frame_bytes host portable sequence r =
    let bytes = record_bytes host portable sequence r in
    size_bytes host portable (length bytes) ++ (size_bytes host portable (crc32 bytes) ++ bytes)

-- The frames of consecutive records, numbered from `first` on.
unfoldable pub log_bytes : Endian → Bool → ℕ → List ParsedRecord → Bytes
log_bytes host portable first [] = []
log_bytes host portable first (r ∷ rs) =
    frame_bytes host portable first r ++ log_bytes host portable (first + 1) rs

unfoldable pub apply_all : List ParsedRecord → Map → Map
apply_all [] store = store
apply_all (r ∷ rs) store = apply_all rs (apply_record r store)

field_value-size_bytes :
    (host : Endian) (portable : Bool) (size : ℕ)
    → size < 2 ^ 32
    → field_value host portable (size_bytes host portable size) ≡ size
unfolding size_bytes
field_value-size_bytes host true size h = from_le-le_bytes 4 size h
field_value-size_bytes host false size h = from_native-native_bytes host 4 size h

payload_size_pos : (op : WalOp) (key value : Bytes) → 0 < payload_size op key value
payload_size_pos Types.WalOp.set key value = omega arith
payload_size_pos Types.WalOp.delete key value = omega arith

module _ (host : Endian) (portable : Bool) where
  pub length-record_any :
      (sequence other : ℕ) (r : ParsedRecord)
      → length (record_bytes host portable sequence r) ≡ length (record_bytes host portable other r)
  length-record_any sequence other r =
      length-record_bytes host portable sequence r ∙ sym (length-record_bytes host portable other r)

  record_nonempty :
      (sequence : ℕ) (r : ParsedRecord) → 0 < length (record_bytes host portable sequence r)
  record_nonempty sequence r =
      omega
        (arith, length-record_bytes host portable sequence r, payload_size_pos r.op r.key r.value)

  pub record-IsFrame :
      (sequence : ℕ) (r : ParsedRecord)
      → sequence < 2 ^ 64
      → IsStorable host portable r
      → let bytes = record_bytes host portable sequence r in
        IsFrame host portable
          (size_bytes host portable (length bytes))
          (size_bytes host portable (crc32 bytes))
          bytes
          r
          (reported portable sequence)
  record-IsFrame sequence r h s =
      let bytes = record_bytes host portable sequence r in
      let short : length bytes ≤ max_record_length =
        omega (arith, s.fits, length-record_any sequence 0 r) in
      record {
        size_width = length-size_bytes host portable (length bytes);
        sum_width = length-size_bytes host portable (crc32 bytes);
        size_value = field_value-size_bytes host portable (length bytes) (omega arith);
        sum_value = field_value-size_bytes host portable (crc32 bytes) (crc32-lt bytes);
        nonempty = record_nonempty sequence r;
        bounded = short;
        parses = parse_record-record_bytes host portable sequence h r s;
      }

  pub length-frame_bytes :
      (sequence : ℕ) (r : ParsedRecord)
      → length (frame_bytes host portable sequence r)
        ≡ 8 + length (record_bytes host portable sequence r)
  unfolding frame_bytes
  length-frame_bytes sequence r =
      let bytes = record_bytes host portable sequence r in
      omega (
        arith,
        length-append (size_bytes host portable (length bytes))
            (size_bytes host portable (crc32 bytes) ++ bytes),
        length-append (size_bytes host portable (crc32 bytes)) bytes,
        length-size_bytes host portable (length bytes),
        length-size_bytes host portable (crc32 bytes),
      )

  -- A written frame at the head of the stream is read back.
  pub read_frame-frame_bytes :
      (sequence : ℕ) (r : ParsedRecord) (rest : Bytes) (cursor : ℕ)
      → sequence < 2 ^ 64
      → IsStorable host portable r
      → read_frame host portable (frame_bytes host portable sequence r ++ rest) cursor
        ≡ reads (
          r,
          reported portable sequence,
          cursor + length (frame_bytes host portable sequence r),
          rest,
        )
  unfolding frame_bytes
  read_frame-frame_bytes sequence r rest cursor h s =
      let bytes = record_bytes host portable sequence r in
      ap (λ (l : Bytes). read_frame host portable l cursor) (regroup bytes)
      ∙ read_frame-IsFrame host portable _ _ bytes rest cursor (record-IsFrame sequence r h s)
      ∙ ap (λ (n : ℕ). reads (r, reported portable sequence, n, rest))
          (omega (arith, length-frame_bytes sequence r))
    where
      regroup :
          (bytes : Bytes)
          → (size_bytes host portable (length bytes)
                ++ (size_bytes host portable (crc32 bytes) ++ bytes))
              ++ rest
            ≡ size_bytes host portable (length bytes)
              ++ (size_bytes host portable (crc32 bytes) ++ (bytes ++ rest))
      regroup bytes = simp append_assoc

pub log_bytes-append :
    (host : Endian) (portable : Bool) (first : ℕ) (rs ss : List ParsedRecord)
    → log_bytes host portable first (rs ++ ss)
      ≡ log_bytes host portable first rs ++ log_bytes host portable (first + length rs) ss
unfolding log_bytes
log_bytes-append host portable first [] ss =
    let e : first ≡ first + 0 = omega arith in ap (λ (n : ℕ). log_bytes host portable n ss) e
log_bytes-append host portable first (r ∷ rs) ss =
    let e : first + 1 + length rs ≡ first + suc (length rs) = omega arith in
    let frame = frame_bytes host portable first r in
    let log = log_bytes host portable (first + 1) rs in
    ap (λ (l : Bytes). frame ++ l) (log_bytes-append host portable (first + 1) rs ss)
    ∙ sym (append_assoc frame log (log_bytes host portable (first + 1 + length rs) ss))
    ∙ ap (λ (n : ℕ). (frame ++ log) ++ log_bytes host portable n ss) e

pub length-le-log_bytes :
    (host : Endian) (portable : Bool) (first : ℕ) (rs : List ParsedRecord)
    → length rs ≤ length (log_bytes host portable first rs)
unfolding log_bytes
length-le-log_bytes host portable first [] = omega arith
length-le-log_bytes host portable first (r ∷ rs) = omega (
  arith,
  length-append (frame_bytes host portable first r) (log_bytes host portable (first + 1) rs),
  length-frame_bytes host portable first r,
  length-le-log_bytes host portable (first + 1) rs,
)
