-- ===== src/Wal/Replay/Recovery.antt =====
-- Recovery of a v3 log from a file: a header, the frames of the records, and a frame that a crash cut
-- short.
use concurrent_kv_store.Wal.Replay.Begin.{
  Stands-at_start, replay_from_offset, begins, replay_from_start,
}
use concurrent_kv_store.Base.{
  refl, suc, append_assoc, ℕ, suc, ◌+◌, ◌^◌, ◌≤◌, ◌<◌, ◌≡◌, ap, ◌∙◌, Bool, true, List, some, ◌++◌,
  arith, Bytes, length, take, drop, All, drop-append, ok,
}
use concurrent_kv_store.BinaryIo.{Endian}
use concurrent_kv_store.Maps.{Map}
use concurrent_kv_store.Wal.Codec.{make_header}
use concurrent_kv_store.Wal.Record.Format.{IsStorable}
use concurrent_kv_store.Wal.Replay.{bad_sequence, replay_loop, replay_from_detailed, initial_result}
use concurrent_kv_store.Wal.Replay.Loop.{replay_loop-stops, replay_loop_fuel}
use concurrent_kv_store.Wal.Replay.Torn.{cut_status, read_frame-torn}
use concurrent_kv_store.Wal.Replay.Written.{
  log_bytes-append, length-le-log_bytes, frame_bytes, log_bytes, apply_all,
}
use concurrent_kv_store.Wal.Replay.Loops.{last_of-one}
use concurrent_kv_store.Wal.Replay.Loops.{
  last_sequence-after_log, last_of, after_log-Stands, after_log_fields, Stands, after_log,
  replay_loop-log_bytes,
}
use concurrent_kv_store.Wal.Types.{WalReplayStatus, WalReplayResult, ParsedRecord, u64_max}

-- The fields of a result that read a log up to a cut frame, or to its end.
pub record Recovered (result : WalReplayResult) (status : WalReplayStatus)
    (start good count last generation : ℕ) : Type 0 where
  pub applied_operations : result.applied_operations ≡ count
  pub status_eq : result.status ≡ status
  pub start_offset : result.start_offset ≡ start
  pub last_good_offset : result.last_good_offset ≡ good
  pub stop_offset : result.stop_offset ≡ good
  pub generation_eq : result.generation ≡ generation
  pub last_sequence : result.last_sequence ≡ last

-- The first k bytes of a frame that was being written.
pub record Torn (host : Endian) (portable : Bool) (k : ℕ) (tail : Bytes) : Type 0 where
  pub written : ParsedRecord
  pub sequence : ℕ
  pub sequence_fits : sequence < 2 ^ 64
  pub storable : IsStorable host portable written
  pub cut : k < length (frame_bytes host portable sequence written)
  pub tail_eq : tail ≡ take k (frame_bytes host portable sequence written)

module _ (host : Endian) (portable : Bool) (offset : ℕ) (rs : List ParsedRecord) (first k : ℕ)
    (tail : Bytes) where
  -- The loop on the frames of `rs` with a cut frame behind them.
  replay_loop-Torn :
      (cursor : ℕ) (result : WalReplayResult) (store : Map)
      → first + length rs < 2 ^ 64
      → All (IsStorable host portable) rs
      → Stands portable offset result first cursor
      → Torn host portable k tail
      → let log = log_bytes host portable first rs in
        replay_loop
          (suc (length (log ++ tail)))
          host
          portable
          offset
          (log ++ tail)
          cursor
          result
          store
        ≡ ok (
          record (after_log host portable first cursor rs result) {
            status = cut_status k;
            stop_offset = cursor + length log;
          },
          apply_all rs store,
        )
  replay_loop-Torn cursor result store h s stands torn =
      let log = log_bytes host portable first rs in
      let fuel = length (log ++ tail) in
      let stop = cursor + length log in
      replay_loop_fuel host portable offset (suc fuel) (length rs + suc fuel) (log ++ tail) cursor
        result store (omega arith) (omega arith)
      ∙ replay_loop-log_bytes host portable offset rs first (suc fuel) tail cursor result store h s
          stands
      ∙ replay_loop-stops host portable offset tail stop
          (after_log host portable first cursor rs result) (apply_all rs store) fuel
          (rw torn.tail_eq (
            read_frame-torn host portable torn.sequence torn.written stop k torn.sequence_fits
              torn.storable torn.cut))

replay_loop-Recovered :
    (host : Endian) (offset : ℕ) (rs : List ParsedRecord) (first k : ℕ) (tail : Bytes) (cursor : ℕ)
    (start : WalReplayResult) (store : Map)
    → first + length rs < 2 ^ 64
    → All (IsStorable host true) rs
    → Stands true offset start first cursor
    → Torn host true k tail
    → let log = log_bytes host true first rs in
      (result : WalReplayResult) × (replay_loop
          (suc (length (log ++ tail)))
          host
          true
          offset
          (log ++ tail)
          cursor
          start
          store
        ≡ ok (result, apply_all rs store))
      × Recovered result
          (cut_status k)
          start.start_offset
          (cursor + length log)
          (start.applied_operations + length rs)
          (last_of first rs start.last_sequence)
          start.generation
replay_loop-Recovered host offset rs first k tail cursor start store h s stands torn =
    let (applied, started, generation, _, _) =
      after_log_fields host true offset rs first cursor start in
    (
      _,
      replay_loop-Torn host true offset rs first k tail cursor start store h s stands torn,
      record {
        applied_operations = applied;
        status_eq = refl;
        start_offset = started;
        last_good_offset = (after_log-Stands host true offset rs first cursor start h stands).good;
        stop_offset = refl;
        generation_eq = generation;
        last_sequence = last_sequence-after_log host rs first cursor start;
      },
    )

-- A v3 file that holds a header of a generation from 1 to 2^64 - 1, the frames of fewer than 2^64 - 1
-- storable records numbered from 1, and the first k bytes of one more frame of a storable record, fewer
-- than it has, is replayed from offset zero to a store on which exactly the whole records have been
-- applied. The result counts them, has the status that the cut makes (a clean end for k = 0, else a
-- partial record), and reports the end of the last whole frame as the last good offset and the stop
-- offset.
pub replay-cut_log :
    (host : Endian) (generation : ℕ) (rs : List ParsedRecord) (k : ℕ) (tail : Bytes) (store : Map)
    → 0 < generation
    → generation ≤ u64_max
    → length rs < u64_max
    → All (IsStorable host true) rs
    → Torn host true k tail
    → (result : WalReplayResult) × (replay_from_detailed host
          (some (make_header generation ++ (log_bytes host true 1 rs ++ tail)))
          0
          store
        ≡ ok (result, apply_all rs store))
      × Recovered result
          (cut_status k)
          0
          (24 + length (log_bytes host true 1 rs))
          (length rs)
          (length rs)
          generation
unfolding initial_result
replay-cut_log host generation rs k tail store h g n s torn =
    let log = log_bytes host true 1 rs in
    let start = begins host generation (log ++ tail) store h g 0 24 in
    let stands = Stands-at_start host generation (log ++ tail) store h g in
    let (result, replayed, recovered) =
      replay_loop-Recovered host 24 rs 1 k tail 24 start store (omega arith) s stands torn in
    (
      result,
      replay_from_start host generation (log ++ tail) store h g ∙ replayed,
      record {
        applied_operations = recovered.applied_operations ∙ omega arith;
        status_eq = recovered.status_eq;
        start_offset = recovered.start_offset;
        last_good_offset = recovered.last_good_offset;
        stop_offset = recovered.stop_offset;
        generation_eq = recovered.generation_eq;
        last_sequence = recovered.last_sequence ∙ last_of-one rs;
      },
    )

Stands-behind :
    (host : Endian) (generation : ℕ) (rest : Bytes) (store : Map) (h : 0 < generation)
    (g : generation ≤ u64_max) (covered : List ParsedRecord)
    → 1 + length covered < 2 ^ 64
    → let offset = 24 + length (log_bytes host true 1 covered) in
      Stands true offset
        (begins host generation rest store h g offset offset)
        (1 + length covered)
        offset
unfolding bad_sequence initial_result
Stands-behind host generation rest store h g covered n = record {
  good = refl;
  in_order = ground (arith, length-le-log_bytes host true 1 covered);
}

-- A v3 file with a header of a generation from 1 to 2^64 - 1, the frames of the records covered
-- followed by rs, fewer than 2^64 - 1 together, and the first k bytes of one more frame of a storable
-- record, fewer than it has, when it is replayed from the offset behind the frames of covered, an
-- offset below 2^63, applies exactly the storable records rs. The result counts them, starts at that
-- offset, and reports the end of the last whole frame, and the sequence number of the last record of
-- rs, or zero where rs is empty.
pub replay-cut_log_from :
    (host : Endian) (generation : ℕ) (covered rs : List ParsedRecord) (k : ℕ) (tail : Bytes)
    (store : Map)
    → 0 < generation
    → generation ≤ u64_max
    → length covered + length rs < u64_max
    → 24 + length (log_bytes host true 1 covered) < 2 ^ 63
    → All (IsStorable host true) rs
    → Torn host true k tail
    → let offset = 24 + length (log_bytes host true 1 covered) in
      (result : WalReplayResult) × (replay_from_detailed host
          (some (make_header generation ++ (log_bytes host true 1 (covered ++ rs) ++ tail)))
          offset
          store
        ≡ ok (result, apply_all rs store))
      × Recovered result
          (cut_status k)
          offset
          (offset + length (log_bytes host true (1 + length covered) rs))
          (length rs)
          (last_of (1 + length covered) rs 0)
          generation
unfolding initial_result
replay-cut_log_from host generation covered rs k tail store h g n bound s torn =
    let before = log_bytes host true 1 covered in
    let log = log_bytes host true (1 + length covered) rs in
    let rest = log_bytes host true 1 (covered ++ rs) ++ tail in
    let offset = 24 + length before in
    let start = begins host generation rest store h g offset offset in
    let stands = Stands-behind host generation rest store h g covered (omega arith) in
    let e : drop (length before) rest ≡ log ++ tail =
      ap (λ (l : Bytes). drop (length before) (l ++ tail)) (log_bytes-append host true 1 covered rs)
      ∙ ap (drop (length before)) (append_assoc before log tail)
      ∙ drop-append before (log ++ tail) in
    let (result, replayed, recovered) =
      replay_loop-Recovered host offset rs (1 + length covered) k tail offset start store
        (omega arith) s stands torn in
    (
      result,
      replay_from_offset host generation rest store h g (length before) bound
          ∙ ap
              (λ (input : Bytes).
                replay_loop (suc (length input)) host true offset input offset start store)
              e
          ∙ replayed,
      record {
        applied_operations = recovered.applied_operations ∙ omega arith;
        status_eq = recovered.status_eq;
        start_offset = recovered.start_offset;
        last_good_offset = recovered.last_good_offset;
        stop_offset = recovered.stop_offset;
        generation_eq = recovered.generation_eq;
        last_sequence = recovered.last_sequence;
      },
    )
