-- ===== src/Runs/Repairs.antt =====
-- Logs that are opened, cut and rotated.
use concurrent_kv_store.Base.{
  [], ◌∷◌, ◌++◌, ◌≡◌, ok, refl, true, false, returned, take, arith, Bytes,
}
use concurrent_kv_store.BinaryIo.{little}
use concurrent_kv_store.Runs.Data.{color, no_color, color-IsStorable, ready}
use concurrent_kv_store.Runs.Frames.{Torn-color}
use concurrent_kv_store.Wal.Append
use concurrent_kv_store.Wal.Append.Holds.{Holds}
use concurrent_kv_store.Wal.Codec.{make_header}
use concurrent_kv_store.Wal.Open.{open_wal}
use concurrent_kv_store.Wal.Open.Torn.{open_wal-Torn}
use concurrent_kv_store.Wal.Replay.View.{view, update_all, SameView, view-apply_all}
use concurrent_kv_store.Wal.Replay.Written.{log_bytes, frame_bytes, apply_all}
use concurrent_kv_store.Wal.State.{Wal, Io, calm}
use concurrent_kv_store.Wal.Truncate
use concurrent_kv_store.Wal.Truncate.Fresh.{rotate-Holds}
use concurrent_kv_store.Wal.Truncate.Repair.{repair-Holds, HoldsTorn, TruncateWorks}
use concurrent_kv_store.Wal.Types.{WalReplayResult, buffered}

-- The first ten bytes of a frame.
abbrev tail : Bytes
tail = take 10 (frame_bytes little true 1 color)

-- A log with one record and a cut frame.
abbrev torn_file : Bytes
torn_file = make_header 1 ++ (log_bytes little true 1 (color ∷ []) ++ tail)

open_wal-Torn_example :
    (u : Wal) × (open_wal little calm torn_file buffered 32 ≡ ok u)
    × (u.file ≡ torn_file)
    × ((later : Io) (payload : Bytes)
        → let p = Append.append_payload later payload u in (returned p.0 ≡ false) × (p.1 ≡ u))
open_wal-Torn_example =
    open_wal-Torn little calm buffered 32 1 (color ∷ []) 9 tail (omega arith) (omega arith)
      (omega arith) (color-IsStorable, tt) Torn-color refl refl refl refl

abbrev torn_log : Wal
torn_log = record ready { file = torn_file; needs_recovery = true }

torn_log-HoldsTorn : HoldsTorn torn_log (color ∷ []) tail
torn_log-HoldsTorn = record {
  v3 = refl;
  valid = refl;
  healthy = refl;
  written = refl;
  contents = refl;
  generation_pos = omega arith;
  generation_fits = omega arith;
  storable = (color-IsStorable, tt);
}

calm-TruncateWorks : TruncateWorks calm
calm-TruncateWorks = record { hook = refl; inspect = refl; cut = refl; reopen = refl; sync = refl }

repair-Holds_example :
    let p = Truncate.replay_from_and_truncate calm 0 [] torn_log in
    ((result : WalReplayResult) × (p.0 ≡ ok (result, apply_all (color ∷ []) [])))
    × Holds p.1 (color ∷ [])
    × (p.1.file ≡ make_header 1 ++ log_bytes little true 1 (color ∷ []))
repair-Holds_example =
    repair-Holds calm calm-TruncateWorks torn_log (color ∷ []) tail torn_log-HoldsTorn (omega arith)
      [] 9 Torn-color

rotate-Holds_example :
    let p = Truncate.rotate calm ready in Holds p.1 [] × (p.1.host ≡ little) × (p.1.generation ≡ 2)
unfolding Truncate.rotate Truncate.clear Truncate.next_generation Truncate.sync_unless_buffered
    Truncate.is_buffered
rotate-Holds_example = rotate-Holds calm ready (omega arith) refl refl

view-apply_all_example :
    SameView
      (view (apply_all (color ∷ no_color ∷ []) []))
      (update_all (color ∷ no_color ∷ []) (view []))
view-apply_all_example = view-apply_all (color ∷ no_color ∷ []) [] tt
