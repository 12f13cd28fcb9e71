-- ===== src/Runs/Log.antt =====
-- Appends to a small log, and what replay finds behind them.
use concurrent_kv_store.Base.{
  Bytes, throws, ◌≡◌, wal_frame_write_failed, ◌⊎◌, arith, [], List, ◌∷◌, true, refl,
}
use concurrent_kv_store.BinaryIo.{little}
use concurrent_kv_store.Wal.Types.{ParsedRecord}
use concurrent_kv_store.Wal.State.{Io, calm, torn}
use concurrent_kv_store.BinaryIo.{le_bytes}
use concurrent_kv_store.Wal.Record.Payload.{checked_record_length}
use concurrent_kv_store.Wal.Record.Format.{size_bytes}
use concurrent_kv_store.Wal.Append
use concurrent_kv_store.Wal.Append.Atomic.{append_payload-outcome, Whole, Part}
use concurrent_kv_store.Wal.Append.Kept.{append_payload-keeps, append_all}
use concurrent_kv_store.Wal.Append.Series.{append_each-Consistent, append_each, Consistent}
use concurrent_kv_store.Wal.Record.Format.{payload_of}
use concurrent_kv_store.Runs.Data.{
  color, no_color, color-IsStorable, no_color-IsStorable, ready, ready-Holds,
}

-- The device fills up five bytes into the frame.
abbrev full : Io
full = record calm { frame_write = torn 5 }

abbrev calls : List (Io × ParsedRecord)
calls = (calm, color) ∷ (full, no_color) ∷ (calm, color) ∷ []

append_each-Consistent_example : Consistent little [] calls (append_each little calls ready)
append_each-Consistent_example =
    append_each-Consistent little calls ready [] ready-Holds refl refl
      (color-IsStorable, (no_color-IsStorable, (color-IsStorable, tt))) (omega arith)

append_payload-outcome_example :
    let p = Append.append_payload full (payload_of little true color) ready in
    Whole ready [] color p ⊎ Part ready color p
append_payload-outcome_example =
    append_payload-outcome full ready [] color ready-Holds color-IsStorable (omega arith)

-- The append that the device fills up on, some calls, and another append.
append_payload-keeps_example :
    let v = (Append.append_payload full (payload_of little true color) ready).1 in
    let later : List (Io × Bytes) = (calm, payload_of little true no_color) ∷ [] in
    (append_all later v ≡ v)
    × (Append.append_payload calm (payload_of little true color) (append_all later v)
        ≡ (throws wal_frame_write_failed, v))
unfolding Append.append_payload Append.prepare_frame checked_record_length Append.check_appendable
    Append.write_frame_locked Append.ensure_header_locked Append.finalize_frame_locked
    Append.write_output payload_of size_bytes le_bytes
append_payload-keeps_example =
    append_payload-keeps full ready (payload_of little true color) wal_frame_write_failed
      (omega arith) refl ((calm, payload_of little true no_color) ∷ []) calm
      (payload_of little true color) (omega arith)
