-- ===== src/Wal/Replay/Torn.antt =====
-- A frame that a crash cut short.
use concurrent_kv_store.Wal.Record.Format.{IsStorable}
use concurrent_kv_store.Wal.Replay.Written.{length-frame_bytes, record-IsFrame, frame_bytes}
use mathlib.Core.Path.{subst}
use concurrent_kv_store.Wal.Replay.Prefix.{read_frame-nil}
use concurrent_kv_store.Base.{
  ◌^◌, take-append_add, ltb→lt, ◌-◌, zero, inr, suc, inl, ltb, Bool-cases, ℕ, ◌+◌, ◌<◌, ◌≡◌, Bool,
  ◌++◌, arith, Bytes, length, take, length-append, length-take,
}
use concurrent_kv_store.BinaryIo.{Endian}
use concurrent_kv_store.Wal.Codec.{crc32}
use concurrent_kv_store.Wal.Replay.{
  clean_eof, WalReplayStatus, stops, read_framing_u32, read_checksum, read_record, read_frame,
}
use concurrent_kv_store.Wal.Replay.Frame.{IsFrame, read_framing_u32_lem}
use concurrent_kv_store.Wal.Types.{partial_record, ParsedRecord}

module _ (host : Endian) (portable : Bool) where
  read_framing_u32_short :
      (input : Bytes) (cursor : ℕ)
      → 0 < length input
      → length input < 4
      → read_framing_u32 host portable input cursor ≡ stops partial_record cursor
  unfolding read_framing_u32
  read_framing_u32_short input cursor p q = ground arith

  -- Whatever is wrong with the second field, the frame is partial.
  read_checksum_short :
      (input : Bytes) (cursor record_start : ℕ)
      → length input < 4
      → read_checksum host portable input cursor record_start ≡ stops partial_record record_start
  unfolding read_checksum read_framing_u32
  read_checksum_short input cursor record_start h = ground arith

  read_record_short :
      (input : Bytes) (record_start size sum cursor : ℕ)
      → length input < size
      → read_record host portable record_start size sum cursor input
        ≡ stops partial_record record_start
  unfolding read_record
  read_record_short input record_start size sum cursor h = ground arith

module _ {host : Endian} {portable : Bool} {size sum bytes : Bytes} {parsed : ParsedRecord}
    {sequence : ℕ} (f : IsFrame host portable size sum bytes parsed sequence) (cursor : ℕ) where
  cut_in_size :
      (rest : Bytes) (k : ℕ)
      → 0 < k
      → k < 4
      → read_frame host portable (take k (size ++ rest)) cursor ≡ stops partial_record cursor
  unfolding read_frame
  cut_in_size rest k p q = ground (
    arith,
    length-take k (size ++ rest),
    length-append size rest,
    f.size_width,
    read_framing_u32_short host portable (take k (size ++ rest)) cursor,
  )

  cut_in_sum :
      (rest : Bytes)
      → length rest < 4
      → read_frame host portable (size ++ rest) cursor ≡ stops partial_record cursor
  unfolding read_frame
  cut_in_sum rest h = ground (
    arith,
    read_framing_u32_lem host portable size rest cursor f.size_width,
    read_checksum_short host portable rest (cursor + 4) cursor,
  )

  cut_in_record :
      (rest : Bytes)
      → length rest < length bytes
      → read_frame host portable (size ++ (sum ++ rest)) cursor ≡ stops partial_record cursor
  unfolding read_frame read_checksum
  cut_in_record rest h = ground (
    arith,
    read_framing_u32_lem host portable size (sum ++ rest) cursor f.size_width,
    read_framing_u32_lem host portable sum rest (cursor + 4) f.sum_width,
    read_record_short host portable rest cursor (length bytes) (crc32 bytes) (cursor + 4 + 4),
  )

take_behind : (xs ys : Bytes) (n k : ℕ) → length xs + n ≡ k → take k (xs ++ ys) ≡ xs ++ take n ys
take_behind xs ys n k e =
    subst (λ m. take m (xs ++ ys) ≡ xs ++ take n ys) e (take-append_add xs ys n)

-- How a stream stops that holds k bytes of a frame.
abbrev pub cut_status : ℕ → WalReplayStatus
cut_status zero = clean_eof
cut_status (suc k) = partial_record

module _ {host : Endian} {portable : Bool} {size sum bytes : Bytes} {parsed : ParsedRecord}
    {sequence : ℕ} (f : IsFrame host portable size sum bytes parsed sequence) (cursor : ℕ) where
  cut_behind_size :
      (n : ℕ)
      → n < 4 + length bytes
      → read_frame host portable (size ++ take n (sum ++ bytes)) cursor
        ≡ stops partial_record cursor
  cut_behind_size n h = elim (Bool-cases (ltb n 4)) [
    | inl short ↦
        cut_in_sum f cursor (take n (sum ++ bytes)) (ground (arith, length-take n (sum ++ bytes)))
    | inr long ↦
        let e : length sum + (n - 4) ≡ n = ground (arith, f.sum_width) in
        rw (take_behind sum bytes (n - 4) n e)
          (cut_in_record f cursor (take (n - 4) bytes) (ground (arith, length-take (n - 4) bytes)))
  ]

  read_frame-cut :
      (k : ℕ)
      → k < 8 + length bytes
      → read_frame host portable (take k (size ++ (sum ++ bytes))) cursor
        ≡ stops (cut_status k) cursor
  read_frame-cut zero h = read_frame-nil host portable cursor
  read_frame-cut (suc k) h = elim (Bool-cases (ltb (suc k) 4)) [
    | inl short ↦ cut_in_size f cursor (sum ++ bytes) (suc k) (omega arith) (ltb→lt _ _ short)
    | inr long ↦
        let e : length size + (suc k - 4) ≡ suc k = ground (arith, f.size_width) in
        rw (take_behind size (sum ++ bytes) (suc k - 4) (suc k) e)
          (cut_behind_size (suc k - 4) (ground arith))
  ]

-- A stream that holds only the first k bytes of the frame of a storable record with a sequence number
-- below 2^64, fewer than the frame has, stops the replay before that frame: with a clean end for k = 0,
-- and else with a partial record.
pub read_frame-torn :
    (host : Endian) (portable : Bool) (sequence : ℕ) (r : ParsedRecord) (cursor k : ℕ)
    → sequence < 2 ^ 64
    → IsStorable host portable r
    → k < length (frame_bytes host portable sequence r)
    → read_frame host portable (take k (frame_bytes host portable sequence r)) cursor
      ≡ stops (cut_status k) cursor
unfolding frame_bytes
read_frame-torn host portable sequence r cursor k h s short =
    read_frame-cut (record-IsFrame host portable sequence r h s) cursor k
      (omega (arith, length-frame_bytes host portable sequence r))
