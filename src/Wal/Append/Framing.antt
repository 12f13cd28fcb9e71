-- ===== src/Wal/Append/Framing.antt =====
-- The bytes that an append prepares, and the frame of its record.
use concurrent_kv_store.BinaryIo.RoundTrip.{length-le_bytes}
use concurrent_kv_store.Base.{
  refl, ap, length-append, ◌∙◌, ◌-◌, ℕ, ◌+◌, ◌^◌, ◌≤◌, ◌<◌, ◌≡◌, refl, ap, ◌∙◌, true, false, ◌∷◌,
  [], ◌++◌, arith, Bytes, length, length-append, append_assoc, ok, le→ltb,
}
use concurrent_kv_store.BinaryIo.{Endian, little, big, le_bytes, native_bytes, checked_size}
use concurrent_kv_store.Wal.Append.{prepare_frame, overwrite, number_frame}
use concurrent_kv_store.Wal.Codec.{append_le32, append_le64, crc32}
use concurrent_kv_store.Wal.Record.Format.{
  size_bytes, op_payload, payload_of, record_bytes, sequence_field, payload_size,
}
use concurrent_kv_store.Wal.Record.Payload.{
  checked_record_length, append_primitive, append_size, set_payload, delete_payload,
}
use concurrent_kv_store.Wal.Replay.Written.{frame_bytes}
use concurrent_kv_store.Wal.Types
use concurrent_kv_store.Wal.Types.{ParsedRecord, max_record_length}

one_byte : (host : Endian) (op : ℕ) → op < 256 → append_primitive host 1 [] op ≡ op ∷ []
unfolding append_primitive native_bytes le_bytes
one_byte little op h = ap (λ (b : ℕ). b ∷ []) (omega arith)
one_byte big op h = ap (λ (b : ℕ). b ∷ []) (omega arith)

-- A SET that fits the length limit is encoded as its record lays it out.
pub set_payload-ok :
    (host : Endian) (key value : Bytes)
    → payload_size Types.WalOp.set key value + 8 ≤ max_record_length
    → set_payload host false key value ≡ ok (op_payload host true Types.WalOp.set key value)
unfolding set_payload checked_size checked_record_length append_size append_le32 op_payload
    size_bytes
set_payload-ok host key value h = rw (le→ltb (2 ^ 32 - 1) (length key) (omega arith)) (
    rw (le→ltb (2 ^ 32 - 1) (length value) (omega arith)) (
      rw (le→ltb max_record_length (1 + 4 + length key + 4 + length value + 8) (omega arith))
        (simp (one_byte host 1 (omega arith), append_assoc))))

pub delete_payload-ok :
    (host : Endian) (key : Bytes)
    → payload_size Types.WalOp.delete key [] + 8 ≤ max_record_length
    → delete_payload host false key ≡ ok (op_payload host true Types.WalOp.delete key [])
unfolding delete_payload checked_size checked_record_length append_size append_le32 op_payload
    size_bytes
delete_payload-ok host key h = rw (le→ltb (2 ^ 32 - 1) (length key) (omega arith)) (
    rw (le→ltb max_record_length (1 + 4 + length key + 8) (omega arith))
      (simp (one_byte host 2 (omega arith), append_assoc)))

-- A prepared frame, whose checksum and sequence number are zero.
abbrev pub blank_frame : Bytes → Bytes
blank_frame payload = le_bytes 4 (length payload + 8) ++ (le_bytes 4 0 ++ (le_bytes 8 0 ++ payload))

pub prepare_frame-ok :
    (host : Endian) (payload : Bytes)
    → length payload + 8 ≤ max_record_length
    → prepare_frame host false payload ≡ ok (blank_frame payload)
unfolding prepare_frame checked_record_length append_le32 append_le64
prepare_frame-ok host payload h =
    rw (le→ltb max_record_length (length payload + 8) (omega arith)) (simp append_assoc)

number_frame_lem :
    (sequence size : ℕ) (payload : Bytes)
    → let bytes = le_bytes 8 sequence ++ payload in
      number_frame sequence (le_bytes 4 size ++ (le_bytes 4 0 ++ (le_bytes 8 0 ++ payload)))
      ≡ le_bytes 4 size ++ (le_bytes 4 (crc32 bytes) ++ bytes)
unfolding number_frame overwrite le_bytes
number_frame_lem sequence size payload = refl

-- Filling the sequence number and then the checksum into a prepared v3 frame gives the frame whose
-- record is the sequence number and the payload and whose checksum covers both.
pub number_frame-blank_frame :
    (host : Endian) (sequence : ℕ) (r : ParsedRecord)
    → number_frame sequence (blank_frame (payload_of host true r))
      ≡ frame_bytes host true sequence r
unfolding frame_bytes record_bytes sequence_field size_bytes
number_frame-blank_frame host sequence r =
    let payload = payload_of host true r in
    let bytes = le_bytes 8 sequence ++ payload in
    let e : length payload + 8 ≡ length bytes =
      omega (arith, length-append (le_bytes 8 sequence) payload, length-le_bytes 8 sequence) in
    number_frame_lem sequence (length payload + 8) payload
    ∙ ap (λ (n : ℕ). le_bytes 4 n ++ (le_bytes 4 (crc32 bytes) ++ bytes)) e
