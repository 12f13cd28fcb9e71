-- ===== src/Runs/Data.antt =====
-- Two records and an empty log.
use concurrent_kv_store.Base.{none, append-nil, false, sym, arith, [], ◌∷◌, true, refl}
use concurrent_kv_store.BinaryIo.{little}
use concurrent_kv_store.Wal.Types.{ParsedRecord, set, delete, buffered}
use concurrent_kv_store.Wal.State.{Wal}
use concurrent_kv_store.Wal.Codec.{make_header}
use concurrent_kv_store.Wal.Append.Holds.{Holds}
use concurrent_kv_store.Wal.Record.Format.{IsStorable}
use concurrent_kv_store.Wal.Record.RoundTrip.{length-record_bytes, length-op_payload}
use concurrent_kv_store.Wal.Replay.Written.{log_bytes}

abbrev pub color : ParsedRecord
color = record { op = set; key = 99 ∷ []; value = 114 ∷ 101 ∷ 100 ∷ [] }

abbrev pub no_color : ParsedRecord
no_color = record { op = delete; key = 99 ∷ []; value = [] }

pub color-IsStorable : IsStorable little true color
color-IsStorable = record {
  canonical = tt;
  fits = omega (
    arith,
    length-record_bytes little true 0 color,
    length-op_payload little true set (99 ∷ []) (114 ∷ 101 ∷ 100 ∷ []),
  );
}

pub no_color-IsStorable : IsStorable little true no_color
no_color-IsStorable = record {
  canonical = refl;
  fits = omega (
    arith,
    length-record_bytes little true 0 no_color,
    length-op_payload little true delete (99 ∷ []) [],
  );
}

-- A v3 log whose header is written and that holds nothing.
abbrev pub ready : Wal
ready = record {
  host = little;
  file = make_header 1;
  output_good = true;
  policy = buffered;
  max_batch = 32;
  sync_fd = false;
  legacy_v2 = false;
  header_pending = false;
  format_valid = true;
  needs_recovery = false;
  generation = 1;
  next_sequence = 1;
  stats = record { records = 0; sync_calls = 0; batch_histogram = [] };
  failure = none;
}

pub ready-Holds : Holds ready []
unfolding log_bytes
ready-Holds = record {
  v3 = refl;
  open_stream = refl;
  valid = refl;
  recovered = refl;
  healthy = refl;
  fresh = λ p. refl;
  contents = sym (append-nil (make_header 1));
  numbered = refl;
  generation_pos = omega arith;
  generation_fits = omega arith;
  storable = tt;
}
