-- ===== src/Wal/Truncate/Repair.antt =====
-- `ReplayFromAndTruncate` on a file whose last frame is cut.
use concurrent_kv_store.Wal.Append.Holds.{Holds}
use concurrent_kv_store.Wal.Append.{sync_locked}
use concurrent_kv_store.Maps.{Map}
use mathlib.Core.Path.{subst}
use concurrent_kv_store.Base.{
  not_both, suc, Bool-cases, inl, inr, le→ltb, some, take-append_add, ℕ, ◌+◌, ◌==◌, ltb, ◌≡◌, ◌∙◌,
  ◌<◌, ◌≤◌, List, [], ◌++◌, Bytes, true, false, ok, All, length, take, refl, sym, ap, arith, none,
  append_assoc, append-nil, length-append, take-append_add,
}
use concurrent_kv_store.Wal.Append.Crash.{tombstone, tombstone-IsStorable, frame_pos}
use concurrent_kv_store.Wal.Codec.{make_header}
use concurrent_kv_store.Wal.Codec.Header.{length-make_header}
use concurrent_kv_store.Wal.Record.Format.{IsStorable}
use concurrent_kv_store.Wal.Replay.{replay_from_detailed}
use concurrent_kv_store.Wal.Replay.Recovery.{Torn, replay-cut_log}
use concurrent_kv_store.Wal.Replay.Written.{log_bytes, apply_all}
use concurrent_kv_store.Wal.State.{Wal, Io}
use concurrent_kv_store.Wal.Truncate
use concurrent_kv_store.Wal.Truncate.{is_buffered, is_clean, replay_wal}
use concurrent_kv_store.Wal.Types.{WalStats, ParsedRecord, WalReplayResult, u64_max}

-- Nothing that a truncation calls fails.
pub record TruncateWorks (io : Io) : Type 0 where
  pub hook : io.before_truncate_hook_throws ≡ false
  pub inspect : io.inspect_fails ≡ false
  pub cut : io.truncate_fails ≡ false
  pub reopen : io.reopen_fails ≡ false
  pub sync : io.sync_fails ≡ false

-- A v3 log, opened on records and the tail of a cut frame.
pub record HoldsTorn (w : Wal) (rs : List ParsedRecord) (tail : Bytes) : Type 0 where
  pub v3 : w.legacy_v2 ≡ false
  pub valid : w.format_valid ≡ true
  pub healthy : w.failure ≡ none
  pub written : w.header_pending ≡ false
  pub contents : w.file ≡ make_header w.generation ++ (log_bytes w.host true 1 rs ++ tail)
  pub generation_pos : 0 < w.generation
  pub generation_fits : w.generation ≤ u64_max
  pub storable : All (IsStorable w.host true) rs

sync-stats :
    (io : Io)
    → TruncateWorks io
    → (w : Wal)
    → (stats : WalStats) × (Truncate.sync_unless_buffered io w
        ≡ (ok tt, record w { stats = stats }))
unfolding Truncate.sync_unless_buffered sync_locked
sync-stats io works w = elim (Bool-cases (is_buffered w.policy)) [
  | inl plain ↦ (w.stats, rw plain refl)
  | inr other ↦ elim (Bool-cases w.sync_fd) [
    | inr closed ↦ (w.stats, rw other (rw closed refl))
    | inl open_fd ↦ (
      record w.stats { sync_calls = w.stats.sync_calls + 1 },
      rw other (rw open_fd (rw (works.sync) refl)),
    )
  ]
]

module _ (io : Io) (works : TruncateWorks io) (w : Wal) (rs : List ParsedRecord) (tail : Bytes)
    (h : HoldsTorn w rs tail) (room : length rs < u64_max) where
  abbrev log : Bytes
  log = log_bytes w.host true 1 rs

  abbrev good : ℕ
  good = 24 + length log

  -- The log behind the truncation.
  abbrev cut_file : Bytes
  cut_file = make_header w.generation ++ log

  take-good : take good w.file ≡ cut_file
  take-good =
      let e : take (length cut_file + 0) (cut_file ++ tail) ≡ cut_file =
        take-append_add cut_file tail 0 ∙ append-nil cut_file in
      let n : length cut_file + 0 ≡ good =
        omega
          (arith, length-append (make_header w.generation) log, length-make_header w.generation) in
      ap (take good) (h.contents ∙ sym (append_assoc (make_header w.generation) log tail))
      ∙ ap (λ (n : ℕ). take n (cut_file ++ tail)) (sym n)
      ∙ e

  replay-cut_file :
      (v : Wal)
      → v.file ≡ cut_file
      → v.host ≡ w.host
      → (result : WalReplayResult) × (replay_wal v 0 [] ≡ ok (result, apply_all rs []))
        × (is_clean result.status ≡ true)
        × (result.last_sequence ≡ length rs)
  unfolding replay_wal is_clean
  replay-cut_file v same_file same_host =
      let (result, e, recovered) =
        replay-cut_log w.host w.generation rs 0 [] [] h.generation_pos h.generation_fits room
          h.storable
          (record {
            written = tombstone;
            sequence = 0;
            sequence_fits = omega arith;
            storable = tombstone-IsStorable w.host;
            cut = frame_pos w.host 0 tombstone;
            tail_eq = refl;
          }) in
      (
        result,
        rw (same_file, same_host)
            (ap
                (λ (l : Bytes).
                  replay_from_detailed w.host (some (make_header w.generation ++ l)) 0 [])
                (sym (append-nil log))
              ∙ e),
        rw (recovered.status_eq) refl,
        recovered.last_sequence,
      )

  abbrev repaired : Wal
  repaired = record w {
    file = cut_file;
    output_good = true;
    next_sequence = length rs + 1;
    needs_recovery = false;
  }

  resume-good :
      (v : Wal)
      → v.file ≡ cut_file
      → v.host ≡ w.host
      → Truncate.resume_after_truncation good v
        ≡ (ok tt, record v { next_sequence = length rs + 1 })
  unfolding Truncate.resume_after_truncation
  resume-good v same_file same_host =
      let (result, e, clean, last) = replay-cut_file v same_file same_host in
      let not_first : (good == 0) ≡ false = ground arith in
      let not_last : (length rs == u64_max) ≡ false = ground (arith, room) in
      rw not_first (rw e (rw (clean, last) (rw not_last refl)))

  truncate_to-good :
      Truncate.truncate_to io good w
      ≡ Truncate.sync_unless_buffered io (record repaired { legacy_v2 = false })
  unfolding Truncate.truncate_to
  truncate_to-good =
      let not_first : (good == 0) ≡ false = ground arith in
      let inside : ltb (length w.file) good ≡ false = le→ltb (length w.file) good (
        omega (
          arith,
          ap length h.contents,
          length-append (make_header w.generation) (log ++ tail),
          length-append log tail,
          length-make_header w.generation,
        )) in
      simp (
        works.hook,
        h.v3,
        not_first,
        works.inspect,
        inside,
        works.cut,
        take-good,
        works.reopen,
        resume-good (record w { file = cut_file; output_good = true; legacy_v2 = false }) refl refl,
      )

  -- Let a v3 log without a kept failure, whose format is valid and whose header is written, have a file
  -- with the header, the frames of fewer than 2^64 - 1 storable records rs and a first part, not empty,
  -- of one more frame of a storable record. When the system does not fail, ReplayFromAndTruncate from
  -- offset zero returns the store with exactly rs applied, and leaves a log that accepts appends and
  -- holds rs, in a file cut behind the last whole frame.
  pub repair-Holds :
      (store : Map) (k : ℕ)
      → Torn w.host true (suc k) tail
      → let p = Truncate.replay_from_and_truncate io 0 store w in
        ((result : WalReplayResult) × (p.0 ≡ ok (result, apply_all rs store)))
        × Holds p.1 rs
        × (p.1.file ≡ cut_file)
  unfolding Truncate.replay_from_and_truncate replay_wal is_clean
  repair-Holds store k torn =
      let (result, e, recovered) =
        replay-cut_log w.host w.generation rs (suc k) tail store h.generation_pos h.generation_fits
          room h.storable torn in
      let (stats, synced) = sync-stats io works (record repaired { legacy_v2 = false }) in
      let read : replay_from_detailed w.host (some w.file) 0 store
          ≡ ok (result, apply_all rs store) =
        ap (λ (file : Bytes). replay_from_detailed w.host (some file) 0 store) h.contents ∙ e in
      let last : Wal = record repaired { legacy_v2 = false; stats = stats } in
      let whole_call : Truncate.replay_from_and_truncate io 0 store w
          ≡ (ok (record result { truncated = true }, apply_all rs store), last) =
        rw read (
          rw (recovered.status_eq, recovered.last_good_offset)
            (rw truncate_to-good (rw synced refl))) in
      let holds : Holds last rs = record {
        v3 = refl;
        open_stream = refl;
        valid = h.valid;
        recovered = refl;
        healthy = h.healthy;
        fresh = λ p. absurd (not_both w.header_pending p h.written);
        contents = rw (h.written) refl;
        numbered = omega arith;
        generation_pos = h.generation_pos;
        generation_fits = h.generation_fits;
        storable = h.storable;
      } in
      (
        (record result { truncated = true }, ap (λ q. q.0) whole_call),
        subst (λ (v : Wal). Holds v rs) (sym (ap (λ q. q.1) whole_call)) holds,
        ap (λ q. q.1.file) whole_call,
      )
