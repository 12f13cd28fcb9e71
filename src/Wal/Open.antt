-- ===== src/Wal/Open.antt =====
-- The constructor of `WriteAheadLog`, and its statistics.
pub mod Inspect
pub mod Torn
use concurrent_kv_store.Base.{
  ℕ, ◌+◌, Bool, true, false, not, ◌||◌, none, [], Bytes, length, replicate, ltb, ◌==◌,
  if◌then◌else◌, Result, ok, ◌>>=◌, ◌>>◌, throw_if, wal_open_failed, wal_bad_max_batch,
  wal_sequence_exhausted, wal_sync_failed,
}
use concurrent_kv_store.BinaryIo.{Endian}
use concurrent_kv_store.Wal.Codec.{parse_header}
use concurrent_kv_store.Wal.Replay.{magic_prefix}
use concurrent_kv_store.Wal.State.{Wal, Io}
use concurrent_kv_store.Wal.Truncate.{is_buffered, is_clean, replay_wal}
use concurrent_kv_store.Wal.Types.{DurabilityPolicy, WalStats, u64_max}

unfoldable pub empty_stats : ℕ → WalStats
empty_stats max_batch = record {
  records = 0;
  sync_calls = 0;
  batch_histogram = replicate (max_batch + 1) 0;
}

-- The members before the file is looked at, by their initialisers.
unfoldable pub new_wal : Endian → Bytes → DurabilityPolicy → ℕ → Wal
new_wal host file policy max_batch = record {
  host = host;
  file = file;
  output_good = true;
  policy = policy;
  max_batch = max_batch;
  sync_fd = false;
  legacy_v2 = false;
  header_pending = false;
  format_valid = true;
  needs_recovery = false;
  generation = 1;
  next_sequence = 1;
  stats = empty_stats max_batch;
  failure = none;
}

-- A file that begins with a v3 magic, by what `parse_header` answers.
unfoldable pub inspect_portable : Bool × ℕ → Wal → Result Wal
inspect_portable (false, generation) w = ok (record w { format_valid = false; generation = 0 })
inspect_portable (true, generation) w = do
  let w = record w { format_valid = true; generation = generation }
  (replay, ignored) ← replay_wal w 0 []
  throw_if (replay.last_sequence == u64_max) wal_sequence_exhausted
  ok (record w {
    needs_recovery = not (is_clean replay.status);
    next_sequence = replay.last_sequence + 1;
  })

-- The format of the file and where it stands.
unfoldable pub inspect_file : Wal → Result Wal
inspect_file w =
    if length w.file == 0
    then ok (record w { header_pending = true })
    else if magic_prefix w.file
    then inspect_portable (parse_header w.file w.generation) w
    else (do
      let w = record w { legacy_v2 = true; generation = 0 }
      (replay, ignored) ← replay_wal w 0 []
      ok (record w { needs_recovery = not (is_clean replay.status) }))

-- The descriptor for synchronisation, with the parent directory synchronised.
unfoldable pub open_sync_fd : Io → Wal → Result Wal
open_sync_fd io w =
    if is_buffered w.policy
    then ok w
    else (do throw_if io.sync_fails wal_sync_failed; ok (record w { sync_fd = true }))

-- `WriteAheadLog(path, policy, max_batch, …)` on the contents of the file, which the append stream
-- has created empty where there was none.
unfoldable pub open_wal : Endian → Io → Bytes → DurabilityPolicy → ℕ → Result Wal
open_wal host io file policy max_batch = do
  throw_if io.open_fails wal_open_failed
  throw_if (max_batch == 0 || ltb 4096 max_batch) wal_bad_max_batch
  throw_if io.inspect_fails wal_open_failed
  w ← inspect_file (new_wal host file policy max_batch)
  open_sync_fd io w

-- `GetStats` and `ResetStats`
unfoldable pub get_stats : Wal → WalStats
get_stats w = w.stats

unfoldable pub reset_stats : Wal → Wal
reset_stats w = record w { stats = empty_stats w.max_batch }
