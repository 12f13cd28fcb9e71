-- ===== src/Wal/Truncate.antt =====
-- `CurrentOffset`, `Clear`, `Rotate`, `TruncateTo` and the replays of a `WriteAheadLog`.
pub mod Fresh
pub mod Repair
use concurrent_kv_store.Base.{
  ℕ, ◌+◌, Bool, true, false, not, ◌&&◌, ◌||◌, some, [], length, take, ltb, ◌==◌, if◌then◌else◌,
  Result, wal_generation_exhausted, wal_open_failed, wal_truncate_failed, wal_truncate_past_eof,
  wal_truncate_invalid_prefix, wal_offset_failed, fault_hook_failed,
}
use concurrent_kv_store.Base.Results
use concurrent_kv_store.Maps.{Map}
use concurrent_kv_store.Wal.Append.{sync_locked}
use concurrent_kv_store.Wal.Replay.{replay_from_detailed}
use concurrent_kv_store.Wal.State.{Wal, Io, Exec, ◌>>=◌, ◌>>◌, pure, raise_if, lift, modify}
use concurrent_kv_store.Wal.Types.{
  DurabilityPolicy, buffered, WalReplayStatus, clean_eof, WalReplayResult, u64_max,
}

unfoldable pub is_buffered : DurabilityPolicy → Bool
is_buffered buffered = true
is_buffered _ = false

unfoldable pub is_clean : WalReplayStatus → Bool
is_clean clean_eof = true
is_clean _ = false

-- `ReplayFromDetailed` of this log.
unfoldable pub replay_wal : Wal → ℕ → Map → Result (WalReplayResult × Map)
replay_wal w offset store = replay_from_detailed w.host (some w.file) offset store

-- `ReplayFrom`: the number of operations, with the store.
unfoldable pub replay_from : Wal → ℕ → Map → Result (ℕ × Map)
replay_from w offset store =
    Results.◌>>=◌ (replay_wal w offset store) λ r. Results.ok (r.0.applied_operations, r.1)

-- The stream is flushed after each write, so the end of the file is where it stands.
unfoldable pub current_offset : Io → Exec ℕ
current_offset io = do
  raise_if io.offset_fails wal_offset_failed
  λ w. (do raise_if (not w.output_good) wal_offset_failed; pure (length w.file)) w

-- `if (policy_ != DurabilityPolicy::Buffered) SyncLocked();`
unfoldable pub sync_unless_buffered : Io → Exec (Unit {0})
sync_unless_buffered io w = if is_buffered w.policy then (Results.ok tt, w) else sync_locked io w

-- The state of a fresh generation.
unfoldable pub next_generation : Wal → Wal
next_generation w = record w {
  generation = w.generation + 1;
  next_sequence = 1;
  legacy_v2 = false;
  header_pending = true;
  format_valid = true;
  needs_recovery = false;
}

unfoldable pub clear : Io → Exec (Unit {0})
clear io = do
  raise_if io.before_truncate_hook_throws fault_hook_failed
  λ w. raise_if (w.generation == u64_max) wal_generation_exhausted w
  modify (λ w. record w { output_good = false })
  raise_if io.open_fails wal_truncate_failed
  modify (λ w. record w { file = [] })
  raise_if io.truncate_fails wal_truncate_failed
  raise_if io.reopen_fails wal_open_failed
  modify (λ w. record w { output_good = true })
  modify next_generation
  sync_unless_buffered io

-- `Rotate`
unfoldable pub rotate : Io → Exec (Unit {0})
rotate io = clear io

-- What `TruncateTo` does to a v3 log behind the reopened stream.
unfoldable pub resume_after_truncation : ℕ → Exec (Unit {0})
resume_after_truncation offset w =
    if offset == 0
    then (
      Results.ok tt,
      record w {
        generation = w.generation + 1;
        next_sequence = 1;
        header_pending = true;
        format_valid = true;
      },
    )
    else (do
      (result, ignored) ← lift (replay_wal w 0 [])
      raise_if (not (is_clean result.status) || result.last_sequence == u64_max)
          wal_truncate_invalid_prefix
      modify (λ w. record w { next_sequence = result.last_sequence + 1 }))
        w

unfoldable pub truncate_to : Io → ℕ → Exec (Unit {0})
truncate_to io offset = do
  raise_if io.before_truncate_hook_throws fault_hook_failed
  λ w.
      raise_if (not w.legacy_v2 && (offset == 0 && w.generation == u64_max))
        wal_generation_exhausted w
  modify (λ w. record w { output_good = false })
  raise_if io.inspect_fails wal_truncate_failed
  λ w. raise_if (ltb (length w.file) offset) wal_truncate_past_eof w
  raise_if io.truncate_fails wal_truncate_failed
  modify (λ w. record w { file = take offset w.file })
  raise_if io.reopen_fails wal_open_failed
  modify (λ w. record w { output_good = true })
  λ w. (if w.legacy_v2 then pure tt else resume_after_truncation offset) w
  modify (λ w. record w { needs_recovery = false })
  sync_unless_buffered io

-- `ReplayFromAndTruncate`: the result and the store.
unfoldable pub replay_from_and_truncate : Io → ℕ → Map → Exec (WalReplayResult × Map)
replay_from_and_truncate io offset store w =
    (do
      (result, store) ← lift (replay_wal w offset store)
      if is_clean result.status then pure (result, store) else (do
        truncate_to io result.last_good_offset
        pure (record result { truncated = true }, store)))
      w
