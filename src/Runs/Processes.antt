-- ===== src/Runs/Processes.antt =====
-- A process that starts on no files, under a hash that adds up the bytes.
use concurrent_kv_store.System
use concurrent_kv_store.System.{Step, Reach}
use concurrent_kv_store.System.Safety.{Reach-Durable, Durable}
use concurrent_kv_store.System.Outcomes.{Reachable}
use concurrent_kv_store.System.{log_length, Fits}
use concurrent_kv_store.Maps.{assign, find}
use concurrent_kv_store.Wal.Codec.{make_header}
use concurrent_kv_store.Store.Data.{change_shard, shard_index}
use concurrent_kv_store.Wal.Truncate
use concurrent_kv_store.Snapshot.Save
use concurrent_kv_store.Snapshot.Types
use concurrent_kv_store.Store.Persistence.{clear_persistence, reset_writes}
use concurrent_kv_store.BinaryIo.{le_bytes, native_bytes}
use concurrent_kv_store.Wal.Codec.{append_le32, append_le64}
use concurrent_kv_store.Wal.Append.{number_frame, overwrite}
use concurrent_kv_store.Wal.Record.Payload.{append_primitive, append_size}
use concurrent_kv_store.Runs.Data.{color, color-IsStorable}
use concurrent_kv_store.Wal.Record.Format.{IsStorable}
use concurrent_kv_store.Base.{
  returned, true, arith, length, none, some, [], ◌∷◌, ok, refl, ◌≡◌, true,
}
use concurrent_kv_store.BinaryIo.{little}
use concurrent_kv_store.Main.{recover, start}
use concurrent_kv_store.Runs.Shards.{byte_sum}
use concurrent_kv_store.Snapshot.Types.{Files}
use concurrent_kv_store.Snapshot.Load.{load, not_loaded}
use concurrent_kv_store.Store.Data.{
  put, count_write, clear_shards, distribute, replace_data, collect_shards, collect_data,
  check_checkpoint_error, set,
}
use concurrent_kv_store.Store.Objects.{new_store}
use concurrent_kv_store.Store.State.{Store}
use concurrent_kv_store.Wal.Open.{open_sync_fd, inspect_file, open_wal, new_wal}
use concurrent_kv_store.Wal.State.{Wal, calm}
use concurrent_kv_store.Wal.Append.{
  append_set, append_payload, prepare_frame, check_appendable, write_frame_locked,
  ensure_header_locked, write_output, finalize_frame_locked, sync_frame,
}
use concurrent_kv_store.Wal.Record.Payload.{set_payload}
use concurrent_kv_store.Wal.Replay.{replay_from_detailed, replay_opened, initial_result}
use concurrent_kv_store.Wal.Truncate.{is_buffered, replay_from, replay_wal}
use concurrent_kv_store.Maps.{insert_all}
use concurrent_kv_store.Store.Persistence.{
  load_snapshot, replay_from_wal, cancel_pending_checkpoint,
}
use concurrent_kv_store.Wal.Types.{buffered}

abbrev pub no_files : Files
no_files = record { committed = none; temp = none }

-- The process behind its start.
abbrev pub first_log : Wal
first_log = record (new_wal little [] buffered 32) { header_pending = true }

abbrev pub first_store : Store
first_store = record (new_store (some first_log) (some no_files)) { checkpoint_epoch = 1 }

pub first_start : start byte_sum little calm [] no_files ≡ ok ((not_loaded, 0), first_store)
unfolding start open_wal inspect_file new_wal open_sync_fd is_buffered recover load_snapshot load
    replay_from_wal replay_from replay_wal replay_from_detailed replay_opened initial_result
    collect_data collect_shards insert_all replace_data distribute clear_shards
    cancel_pending_checkpoint new_store
first_start = refl

-- The store behind a SET.
abbrev pub second_store : Store
second_store = (set byte_sum calm (99 ∷ []) (114 ∷ []) first_store).1

first_set : set byte_sum calm (99 ∷ []) (114 ∷ []) first_store ≡ (ok tt, second_store)
unfolding set check_checkpoint_error new_store append_set set_payload new_wal append_payload
    prepare_frame check_appendable write_frame_locked ensure_header_locked write_output
    finalize_frame_locked sync_frame
first_set = refl

-- The process behind the SET.
abbrev pub second : System.System
second = record { store = second_store; captured = none }

pub first_steps : Reach byte_sum little (record { store = first_store; captured = none }) second
first_steps = System.Reach.reach_step System.Reach.reach_start (
    System.Step.step_set calm (99 ∷ []) (114 ∷ []) (record { store = first_store; captured = none })
      second_store first_set)

Reach-Durable_example : Durable byte_sum little second_store
Reach-Durable_example =
    Reach-Durable byte_sum little calm none (not_loaded, 0) first_store second first_start
      first_steps

pub second-Reachable : Reachable byte_sum little second
second-Reachable = record {
  io = calm;
  temp = none;
  recovered = (not_loaded, 0);
  first = first_store;
  starts = first_start;
  reaches = first_steps;
}

-- The log behind the SET.
abbrev pub second_log : Wal
second_log = (append_set calm (99 ∷ []) (114 ∷ []) first_log).1

pub second_wal : second_store.wal ≡ some second_log
unfolding set check_checkpoint_error put count_write new_store append_set set_payload new_wal
    append_payload prepare_frame check_appendable write_frame_locked ensure_header_locked
    write_output finalize_frame_locked sync_frame
second_wal = refl

pub second_files : second_store.snapshot ≡ some no_files
unfolding set check_checkpoint_error put count_write new_store append_set set_payload new_wal
    append_payload prepare_frame check_appendable write_frame_locked ensure_header_locked
    write_output finalize_frame_locked sync_frame
second_files = refl

pub second_next : second_log.next_sequence ≡ 2
unfolding append_set set_payload new_wal append_payload prepare_frame check_appendable
    write_frame_locked ensure_header_locked write_output finalize_frame_locked sync_frame
second_next = refl

second_entries : length (collect_data second_store) ≡ 1
unfolding set check_checkpoint_error put count_write new_store append_set set_payload new_wal
    append_payload prepare_frame check_appendable write_frame_locked ensure_header_locked
    write_output finalize_frame_locked sync_frame collect_data collect_shards insert_all
    change_shard shard_index assign find
second_entries = refl

second_length : log_length second_store ≡ length second_log.file
unfolding set check_checkpoint_error put count_write new_store append_set set_payload new_wal
    append_payload prepare_frame check_appendable write_frame_locked ensure_header_locked
    write_output finalize_frame_locked sync_frame log_length
second_length = refl

second_bytes : length second_log.file ≡ 51
unfolding set check_checkpoint_error put count_write new_store append_set set_payload new_wal
    append_payload prepare_frame check_appendable write_frame_locked ensure_header_locked
    write_output finalize_frame_locked sync_frame make_header le_bytes append_le32 append_le64
    number_frame overwrite append_primitive append_size native_bytes
second_bytes = refl

pub second-Fits : Fits second_store
second-Fits = (omega (arith, second_entries), omega (arith, second_length, second_bytes))

second_host : second_log.host ≡ little
unfolding append_set set_payload new_wal append_payload prepare_frame check_appendable
    write_frame_locked ensure_header_locked write_output finalize_frame_locked sync_frame
second_host = refl

pub second_color : IsStorable second_log.host true color
second_color = rw second_host color-IsStorable

pub third_set : returned (set byte_sum calm (98 ∷ []) (103 ∷ []) second_store).0 ≡ true
unfolding set check_checkpoint_error put count_write new_store append_set set_payload new_wal
    append_payload prepare_frame check_appendable write_frame_locked ensure_header_locked
    write_output finalize_frame_locked sync_frame
third_set = refl

pub second_cleared : returned (clear_persistence calm Types.calm second_store).0 ≡ true
unfolding set check_checkpoint_error put count_write new_store append_set set_payload new_wal
    append_payload prepare_frame check_appendable write_frame_locked ensure_header_locked
    write_output finalize_frame_locked sync_frame clear_persistence cancel_pending_checkpoint
    reset_writes Truncate.clear Truncate.next_generation Truncate.sync_unless_buffered is_buffered
    Save.clear
second_cleared = refl
