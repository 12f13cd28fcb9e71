-- ===== src/Wal/Replay.antt =====
-- `ReplayFromDetailed` of src/persistence/wal.cpp. A stream is the list of the bytes not yet read.
pub mod Frame
pub mod Begin
pub mod Loop
pub mod Loops
pub mod Prefix
pub mod Written
pub mod Torn
pub mod Recovery
pub mod Resume
pub mod Total
pub mod View
use concurrent_kv_store.Base.{
  ℕ, zero, suc, ◌+◌, ◌-◌, ◌%◌, ◌^◌, ite, Bool, true, false, not, ◌&&◌, ◌||◌, Option, none, some,
  Bytes, bytes_discrete, length, take, drop, ltb, ◌==◌, if◌then◌else◌, Result, ok, throws, stuck,
  wal_replay_offset_too_large,
}
use concurrent_kv_store.BinaryIo.{Endian, from_le, from_native}
use concurrent_kv_store.Maps.{Map}
use concurrent_kv_store.Wal.Codec.{crc32, parse_header}
use concurrent_kv_store.Wal.Record.Parser.{Parse, accepts, rejects, parse_record, apply_record}
use concurrent_kv_store.Wal.Types.{
  WalReplayStatus, clean_eof, invalid_header, partial_record, invalid_length, invalid_sequence,
  checksum_mismatch, WalReplayResult, ParsedRecord, max_record_length, wal_magic, header_length,
}

-- A read that leaves the loop says with which status and at which `stop_offset`.
pub data Read {ℓ} (A : Type ℓ) : Type ℓ where
  reads : A → Read A
  stops : WalReplayStatus → ℕ → Read A

infixl 5 ◌>>=◌ ◌>>◌
abbrev pub ◌>>=◌ {ℓ κ} : {A : Type ℓ} {B : Type κ} → Read A → (A → Read B) → Read B
reads a >>= f = f a
stops status stop >>= f = stops status stop

abbrev pub ◌>>◌ {ℓ κ} : {A : Type ℓ} {B : Type κ} → Read A → Read B → Read B
m >> k = m >>= λ _. k

abbrev pub stop_if : Bool → WalReplayStatus → ℕ → Read (Unit {0})
stop_if true status stop = stops status stop
stop_if false status stop = reads tt

-- The value, the cursor behind it and the rest of the stream.
unfoldable pub read_framing_u32 : Endian → Bool → Bytes → ℕ → Read (ℕ × ℕ × Bytes)
read_framing_u32 host little_endian input cursor =
    if length input == 0
    then stops clean_eof cursor
    else if ltb (length input) 4
    then stops partial_record cursor
    else reads (
      (if little_endian then from_le (take 4 input) else from_native host (take 4 input)),
      cursor + 4,
      drop 4 input,
    )

-- The second field of a frame: whatever stops its read, the frame is partial from its start on.
unfoldable pub read_checksum : Endian → Bool → Bytes → ℕ → ℕ → Read (ℕ × ℕ × Bytes)
read_checksum host portable input cursor record_start =
    elim (read_framing_u32 host portable input cursor) [
      | reads (checksum, next, rest) ↦ reads (checksum, next, rest)
      | stops _ _ ↦ stops partial_record record_start
    ]

abbrev pub stop_unless_parsed {ℓ} : {A : Type ℓ} → Parse A → ℕ → Read A
stop_unless_parsed (accepts a) stop = reads a
stop_unless_parsed (rejects status) stop = stops status stop

-- A round behind the two framing fields: the parsed record, its sequence number, and the cursor and
-- the stream behind the frame.
unfoldable pub read_record :
    Endian → Bool → ℕ → ℕ → ℕ → ℕ → Bytes → Read (ParsedRecord × ℕ × ℕ × Bytes)
read_record host portable record_start record_length expected_checksum cursor input = do
  stop_if (ltb (length input) record_length) partial_record record_start
  stop_if (not (crc32 (take record_length input) == expected_checksum)) checksum_mismatch
      record_start
  (parsed, sequence) ←
      stop_unless_parsed (parse_record host portable (take record_length input)) record_start
  reads (parsed, sequence, cursor + record_length, drop record_length input)

-- One round of the loop up to the parsed record.
unfoldable pub read_frame : Endian → Bool → Bytes → ℕ → Read (ParsedRecord × ℕ × ℕ × Bytes)
read_frame host portable input record_start = do
  (record_length, cursor, input) ← read_framing_u32 host portable input record_start
  stop_if (record_length == 0 || ltb max_record_length record_length) invalid_length record_start
  (expected_checksum, cursor, input) ← read_checksum host portable input cursor record_start
  read_record host portable record_start record_length expected_checksum cursor input

-- `offset` is where the replay starts.
unfoldable pub bad_sequence : Bool → ℕ → WalReplayResult → ℕ → Bool
bad_sequence portable offset result sequence =
    portable
    && (sequence == 0
        || ((result.applied_operations == 0 && (offset == header_length && not (sequence == 1)))
            || (not (result.applied_operations == 0)
                && not (sequence == (result.last_sequence + 1) % 2 ^ 64))))

-- What an applied record leaves in the result.
unfoldable pub count_record : Bool → WalReplayResult → ℕ → ℕ → WalReplayResult
count_record portable result sequence cursor = record result {
  applied_operations = result.applied_operations + 1;
  last_sequence = if portable then sequence else result.last_sequence;
  last_good_offset = cursor;
  stop_offset = cursor;
}

-- The `while (true)` loop. Each round takes at least nine bytes, so fuel above the length of the stream
-- is enough.
unfoldable pub replay_loop :
    ℕ → Endian → Bool → ℕ → Bytes → ℕ → WalReplayResult → Map → Result (WalReplayResult × Map)
replay_loop zero host portable offset input cursor result store = stuck
replay_loop (suc fuel) host portable offset input cursor result store =
    elim (read_frame host portable input cursor) [
      | stops status stop ↦ ok (record result { status = status; stop_offset = stop }, store)
      | reads (parsed, sequence, next, rest) ↦ elim (bad_sequence portable offset result sequence) [
        | true ↦ ok (record result { status = invalid_sequence; stop_offset = cursor }, store)
        | false ↦
            replay_loop fuel host portable offset rest next
              (count_record portable result sequence next) (apply_record parsed store)
      ]
    ]

-- The result before anything is read.
unfoldable pub initial_result : ℕ → WalReplayResult
initial_result offset = record {
  applied_operations = 0;
  status = clean_eof;
  start_offset = offset;
  last_good_offset = offset;
  stop_offset = offset;
  generation = 0;
  last_sequence = 0;
  truncated = false;
}

-- `seekg` to the start offset, which may lie behind the end of the file, and the loop.
unfoldable pub replay_frames :
    Endian → Bool → Bytes → ℕ → WalReplayResult → Map → Result (WalReplayResult × Map)
replay_frames host portable file offset result store =
    let input = drop offset file in
    replay_loop (suc (length input)) host portable offset input offset result store

-- A log with a v3 magic, by what `parse_header` answers.
unfoldable pub replay_portable :
    Endian → Bytes → ℕ → Bool × ℕ → Map → Result (WalReplayResult × Map)
replay_portable host file offset (valid, generation) store =
    let result = record (initial_result offset) { generation = generation } in
    if not valid || (not (offset == 0) && ltb offset header_length)
    then ok
        (record result { status = invalid_header; last_good_offset = 0; stop_offset = 0 }, store)
    else if offset == 0
    then replay_frames host true file header_length
        (record result { last_good_offset = header_length; stop_offset = header_length }) store
    else replay_frames host true file offset result store

-- Whether the first bytes, four at most, are those of the v3 magic.
unfoldable pub magic_prefix : Bytes → Bool
magic_prefix file =
    ite (bytes_discrete (take (length wal_magic) file) (take (length file) wal_magic)) true false

-- `none` is a file that cannot be opened.
unfoldable pub replay_opened : Endian → Option Bytes → ℕ → Map → Result (WalReplayResult × Map)
replay_opened host none offset store = ok (initial_result offset, store)
replay_opened host (some file) offset store =
    if length file == 0
    then ok (initial_result offset, store)
    else if magic_prefix file
    then replay_portable host file offset (parse_header file 0) store
    else replay_frames host false file offset (initial_result offset) store

-- `std::streamoff` is a signed 64-bit integer.
unfoldable pub replay_from_detailed :
    Endian → Option Bytes → ℕ → Map → Result (WalReplayResult × Map)
replay_from_detailed host file offset store =
    if ltb (2 ^ 63 - 1) offset
    then throws wal_replay_offset_too_large
    else replay_opened host file offset store
