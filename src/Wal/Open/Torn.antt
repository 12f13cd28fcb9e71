-- ===== src/Wal/Open/Torn.antt =====
-- The constructor on a file whose last frame is cut.
use concurrent_kv_store.Base.{
  ◌==◌, ◌||◌, ltb, refl, true, false, Bool-cases, inl, inr, wal_requires_recovery, throws, ℕ, ◌≡◌,
  ◌<◌, ◌≤◌, List, ◌++◌, Bytes, true, false, suc, ok, returned, Bool-cases, inl, inr, All, length,
  refl, arith, none,
}
use concurrent_kv_store.BinaryIo.{Endian}
use concurrent_kv_store.Wal.Append
use concurrent_kv_store.Wal.Append.Crash.{prepare-cases}
use concurrent_kv_store.Wal.Codec.{make_header}
use concurrent_kv_store.Wal.Open.{new_wal, open_wal, open_sync_fd}
use concurrent_kv_store.Wal.Open.Inspect.{found, inspect_file-cut}
use concurrent_kv_store.Wal.Record.Format.{IsStorable}
use concurrent_kv_store.Wal.Replay.Recovery.{Torn}
use concurrent_kv_store.Wal.Replay.Written.{log_bytes}
use concurrent_kv_store.Wal.State.{Wal, Io}
use concurrent_kv_store.Wal.Truncate.{is_buffered, is_clean}
use concurrent_kv_store.Wal.Types.{ParsedRecord, DurabilityPolicy, u64_max}

-- A log that waits for its recovery.
abbrev pub AwaitsRecovery : Wal → Type 0
AwaitsRecovery w = (w.failure ≡ none) × (w.needs_recovery ≡ true)

check-waiting :
    (w : Wal) → AwaitsRecovery w → Append.check_appendable w ≡ (throws wal_requires_recovery, w)
unfolding Append.check_appendable
check-waiting w (healthy, waiting) = ground (arith, healthy, waiting)

append_payload-waiting :
    (io : Io) (payload : Bytes) (w : Wal)
    → AwaitsRecovery w
    → let p = Append.append_payload io payload w in (returned p.0 ≡ false) × (p.1 ≡ w)
unfolding Append.append_payload
append_payload-waiting io payload w h = elim (prepare-cases w.host w.legacy_v2 payload) [
  | inl (frame, e) ↦ (rw e (rw (check-waiting w h) refl), rw e (rw (check-waiting w h) refl))
  | inr (error, e) ↦ (rw e refl, rw e refl)
]

-- Let a file hold a header of a generation from 1 to 2^64 - 1, the frames of fewer than 2^64 - 1
-- storable records numbered from 1, and a first part, not empty, of one more frame of a storable
-- record. Opening it under any policy and an allowed batch size returns, when the system does not fail,
-- a log with that file, on which every append of any payload, on the path of a policy other than
-- GroupCommit, throws and changes nothing.
pub open_wal-Torn :
    (host : Endian) (io : Io) (policy : DurabilityPolicy) (max_batch generation : ℕ)
    (rs : List ParsedRecord) (k : ℕ) (tail : Bytes)
    → 0 < generation
    → generation ≤ u64_max
    → length rs < u64_max
    → All (IsStorable host true) rs
    → Torn host true (suc k) tail
    → io.open_fails ≡ false
    → io.inspect_fails ≡ false
    → io.sync_fails ≡ false
    → (max_batch == 0 || ltb 4096 max_batch) ≡ false
    → let file = make_header generation ++ (log_bytes host true 1 rs ++ tail) in
      (u : Wal) × (open_wal host io file policy max_batch ≡ ok u)
      × (u.file ≡ file)
      × ((later : Io) (payload : Bytes)
          → let p = Append.append_payload later payload u in (returned p.0 ≡ false) × (p.1 ≡ u))
unfolding open_wal open_sync_fd is_clean new_wal
open_wal-Torn host io policy max_batch generation rs k tail h g room s torn opens reads syncs size =
    let file = make_header generation ++ (log_bytes host true 1 rs ++ tail) in
    let inspected =
      inspect_file-cut host policy max_batch generation rs h g room s (suc k) tail torn in
    let v = found host policy max_batch generation rs h g room s (suc k) file in
    elim (Bool-cases (is_buffered policy)) [
      | inl plain ↦ (
        v,
        rw opens (rw size (rw reads (rw inspected (rw plain refl)))),
        refl,
        λ later payload. append_payload-waiting later payload v (refl, refl),
      )
      | inr other ↦ (
        record v { sync_fd = true },
        rw opens (rw size (rw reads (rw inspected (rw other (rw syncs refl))))),
        refl,
        λ later payload.
            append_payload-waiting later payload (record v { sync_fd = true }) (refl, refl),
      )
    ]
