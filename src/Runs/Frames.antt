-- ===== src/Runs/Frames.antt =====
-- Frames, headers and torn logs of small records.
use concurrent_kv_store.Base.{
  ◌≤◌, Bytes, length-append, ◌^◌, some, arith, [], ◌∷◌, take, ◌≡◌, length, ◌<◌, List, ◌++◌, true,
  ◌+◌, refl, ok,
}
use concurrent_kv_store.BinaryIo.{little}
use concurrent_kv_store.Runs.Data.{color, no_color, color-IsStorable, no_color-IsStorable}
use concurrent_kv_store.Wal.Codec.{make_header, parse_header}
use concurrent_kv_store.Wal.Codec.Header.{parse_header-make_header}
use concurrent_kv_store.Wal.Types.{ParsedRecord, WalReplayResult}
use concurrent_kv_store.Wal.Record.Parser.{parse_record, accepts}
use concurrent_kv_store.Wal.Record.Format.{record_bytes, payload_of}
use concurrent_kv_store.Wal.Record.RoundTrip.{
  parse_record-record_bytes, length-record_bytes, length-op_payload,
}
use concurrent_kv_store.Wal.Replay.{read_frame, stops, replay_from_detailed}
use concurrent_kv_store.Wal.Replay.Written.{log_bytes, frame_bytes, length-frame_bytes, apply_all}
use concurrent_kv_store.Wal.Replay.Total.{Returns, replay_from_detailed-Returns}
use concurrent_kv_store.Wal.Replay.Resume.{replay-truncated}
use concurrent_kv_store.Wal.Replay.Prefix.{finished}
use concurrent_kv_store.Maps.{Map}
use concurrent_kv_store.Wal.Replay.Torn.{read_frame-torn, cut_status}
use concurrent_kv_store.Wal.Replay.Recovery.{Torn, Recovered, replay-cut_log, replay-cut_log_from}
use concurrent_kv_store.Wal.Append.{number_frame}
use concurrent_kv_store.Wal.Append.Framing.{number_frame-blank_frame, blank_frame}

parse_header-make_header_example : parse_header (make_header 7 ++ 1 ∷ 2 ∷ []) 0 ≡ (true, 7)
parse_header-make_header_example =
    parse_header-make_header 7 0 (1 ∷ 2 ∷ []) (omega arith) (omega arith)

parse_record-record_bytes_example :
    parse_record little true (record_bytes little true 5 color) ≡ accepts (color, 5)
parse_record-record_bytes_example =
    parse_record-record_bytes little true 5 (omega arith) color color-IsStorable

number_frame-blank_frame_example :
    number_frame 5 (blank_frame (payload_of little true color)) ≡ frame_bytes little true 5 color
number_frame-blank_frame_example = number_frame-blank_frame little 5 color

color_frame_length : 10 < length (frame_bytes little true 1 color)
color_frame_length = omega (
  arith,
  length-frame_bytes little true 1 color,
  length-record_bytes little true 1 color,
  length-op_payload little true color.op color.key color.value,
)

read_frame-torn_example :
    read_frame little true (take 10 (frame_bytes little true 1 color)) 24 ≡ stops (cut_status 10) 24
read_frame-torn_example =
    read_frame-torn little true 1 color 24 10 (omega arith) color-IsStorable color_frame_length

-- Ten bytes of a frame.
pub Torn-color : Torn little true 10 (take 10 (frame_bytes little true 1 color))
Torn-color = record {
  written = color;
  sequence = 1;
  sequence_fits = omega arith;
  storable = color-IsStorable;
  cut = color_frame_length;
  tail_eq = refl;
}

replay-cut_log_example :
    let rs : List ParsedRecord = color ∷ no_color ∷ [] in
    (result : WalReplayResult) × (replay_from_detailed little
        (some (
          make_header 1
          ++ (log_bytes little true 1 rs ++ take 10 (frame_bytes little true 1 color))))
        0
        []
      ≡ ok (result, apply_all rs []))
    × Recovered result (cut_status 10) 0 (24 + length (log_bytes little true 1 rs)) 2 2 1
replay-cut_log_example =
    replay-cut_log little 1 (color ∷ no_color ∷ []) 10 (take 10 (frame_bytes little true 1 color))
      [] (omega arith) (omega arith) (omega arith) (color-IsStorable, (no_color-IsStorable, tt))
      Torn-color

covered_fits : 24 + length (log_bytes little true 1 (color ∷ [])) < 2 ^ 63
unfolding log_bytes
covered_fits = omega (
  arith,
  length-append (frame_bytes little true 1 color) [],
  length-frame_bytes little true 1 color,
  length-record_bytes little true 1 color,
  length-op_payload little true color.op color.key color.value,
)

replay-cut_log_from_example :
    let covered : List ParsedRecord = color ∷ [] in
    let rs : List ParsedRecord = no_color ∷ [] in
    let offset = 24 + length (log_bytes little true 1 covered) in
    (result : WalReplayResult) × (replay_from_detailed little
        (some (
          make_header 1
          ++ (log_bytes little true 1 (covered ++ rs)
              ++ take 10 (frame_bytes little true 1 color))))
        offset
        []
      ≡ ok (result, apply_all rs []))
    × Recovered result (cut_status 10) offset (offset + length (log_bytes little true 2 rs)) 1 2 1
replay-cut_log_from_example =
    replay-cut_log_from little 1 (color ∷ []) (no_color ∷ []) 10
      (take 10 (frame_bytes little true 1 color)) [] (omega arith) (omega arith) (omega arith)
      covered_fits (no_color-IsStorable, tt) Torn-color

replay_from_detailed-Returns_example :
    Returns (replay_from_detailed little (some (75 ∷ 86 ∷ [])) 3 [])
replay_from_detailed-Returns_example =
    replay_from_detailed-Returns little (some (75 ∷ 86 ∷ [])) 3 [] (omega arith)

-- Three stray bytes behind the header.
abbrev stray : Bytes
stray = make_header 7 ++ 1 ∷ 2 ∷ 3 ∷ []

replay-truncated_example :
    (final : WalReplayResult) × (m : Map) × (replay_from_detailed little (some stray) 0 []
      ≡ ok (final, m))
    × (24 ≤ final.last_good_offset)
    × (final.last_good_offset ≤ length stray)
    × (replay_from_detailed little (some (take final.last_good_offset stray)) 0 []
        ≡ ok (finished final, m))
replay-truncated_example = replay-truncated little 7 (1 ∷ 2 ∷ 3 ∷ []) [] (omega arith) (omega arith)
