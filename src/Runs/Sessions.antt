-- ===== src/Runs/Sessions.antt =====
-- Calls on a process, and its next start.
use concurrent_kv_store.Base.{
  bytes_discrete, none, some, [], ◌∷◌, ◌++◌, ok, throws, refl, ◌≡◌, Bytes, true, false, arith, ℕ,
  returned, take, Error,
}
use concurrent_kv_store.BinaryIo.{little}
use concurrent_kv_store.Cli.Parser
use concurrent_kv_store.Cli.Text.{
  trim, skip_spaces, is_space, split_whitespace_view, split_from, to_upper, upper,
}
use concurrent_kv_store.Cli.Parser.{is_valid, command, parse, is_valid}
use concurrent_kv_store.Main.{start}
use concurrent_kv_store.Main.Recovery.{Restores}
use concurrent_kv_store.Runs.Data.{color}
use concurrent_kv_store.Runs.Shards.{byte_sum, no_entries}
use concurrent_kv_store.Runs.Processes.{
  second, second_store, second_log, second_wal, second_files, second_next, no_files, second_color,
  second-Reachable, second-Fits,
}
use concurrent_kv_store.Server.{
  Session, done, value, storage_error, show_value, execute, run, is_exit,
}
use concurrent_kv_store.Server.Leaving.{execute-parse}
use concurrent_kv_store.Cli.Words.{SaysExit}
use concurrent_kv_store.Cli.Reading.{split_whitespace_view-Reads}
use concurrent_kv_store.Server.{bye}
use concurrent_kv_store.Server.Loop.{get_behind_set, run-exit}
use concurrent_kv_store.Snapshot.Types
use concurrent_kv_store.Snapshot.Types.{Files, SnapshotLoadResult, SnapshotIo}
use concurrent_kv_store.Store.Copies.{Copies}
use concurrent_kv_store.Store.Data.{get, set, delete}
use concurrent_kv_store.Store.Objects.{new_store}
use concurrent_kv_store.Store.Persistence.{compact_persistence}
use concurrent_kv_store.Store.State.{Store}
use concurrent_kv_store.System.Clearing.{clear-Outcome}
use concurrent_kv_store.Store.Persistence.{clear_persistence}
use concurrent_kv_store.Runs.Processes.{second_cleared}
use concurrent_kv_store.System.Crash.{RestoresEither}
use concurrent_kv_store.System.Outcomes.{
  Leaves, set-Outcome, delete-Outcome, cut-Outcome, restart-Outcome, compact-Outcome,
}
use concurrent_kv_store.Wal.Append.Call.{set_record, delete_record}
use concurrent_kv_store.Wal.Append.Outcome.{to_write}
use concurrent_kv_store.Wal.Replay.View.{View, update}
use concurrent_kv_store.Wal.State.{Wal, Io, calm, torn}

-- The write of a frame fails behind three bytes.
abbrev failing : Io
failing = record calm { frame_write = torn 3 }

abbrev memory : View
memory = λ key. get byte_sum key second_store

set-Outcome_example :
    let p = set byte_sum failing (98 ∷ []) (103 ∷ []) second_store in
    Leaves byte_sum little memory
      (returned p.0)
      p.1
      (update (set_record (98 ∷ []) (103 ∷ [])) memory)
set-Outcome_example =
    set-Outcome byte_sum little second second-Reachable second_log second_wal failing (98 ∷ [])
      (103 ∷ []) (omega (arith, second_next))

delete-Outcome_example :
    let p = delete byte_sum calm (99 ∷ []) second_store in
    Leaves byte_sum little memory (returned p.0) p.1 (update (delete_record (99 ∷ [])) memory)
delete-Outcome_example =
    delete-Outcome byte_sum little second second-Reachable second_log second_wal calm (99 ∷ [])
      (omega (arith, second_next))

cut-Outcome_example :
    RestoresEither byte_sum little none
      (second_log.file ++ take 5 (to_write second_log color))
      memory
      (update color memory)
cut-Outcome_example =
    cut-Outcome byte_sum little second second-Reachable second_log second_wal no_files color 5
      (second_log.file ++ take 5 (to_write second_log color)) second_files second_color
      (omega (arith, second_next)) refl

restart-Outcome_example :
    (r : SnapshotLoadResult × ℕ) × (st : Store) × (start byte_sum little calm second_log.file
        no_files
      ≡ ok (r, st))
    × ((key : Bytes) → get byte_sum key st ≡ get byte_sum key second_store)
restart-Outcome_example =
    restart-Outcome byte_sum little second second-Reachable second_log second_wal no_files calm
      second_files refl refl refl

compact-Outcome_example :
    let after = (compact_persistence little calm Types.calm second_store).1 in
    (v : Wal) × (files : Files) × (after.wal ≡ some v)
    × (after.snapshot ≡ some files)
    × Restores byte_sum little files.committed v.file (λ key. get byte_sum key second_store)
compact-Outcome_example =
    compact-Outcome byte_sum little second calm Types.calm second-Reachable second-Fits

clear-Outcome_example :
    let after = (clear_persistence calm Types.calm second_store).1 in
    (v : Wal) × (files : Files) × (after.wal ≡ some v)
    × (after.snapshot ≡ some files)
    × (after.shards ≡ second_store.shards)
    × Restores byte_sum little files.committed v.file (λ key. none)
clear-Outcome_example =
    clear-Outcome byte_sum little second calm Types.calm second-Reachable second_cleared

-- A session over a store without a log.
abbrev session : Session
session = record { store = no_entries; running = true; output = [] }

get_behind_set_example :
    let written =
      execute byte_sum little [] calm Types.calm
        (command Parser.CommandType.set (99 ∷ []) (114 ∷ []))
        session in
    let read =
      execute byte_sum little [] calm Types.calm
        (command Parser.CommandType.get (99 ∷ []) [])
        written in
    let p = set byte_sum calm (99 ∷ []) (114 ∷ []) no_entries in
    (p.0 ≡ ok tt → read.output ≡ ([] ++ done ∷ []) ++ value (114 ∷ []) ∷ [])
    × ((e : Error)
        → p.0 ≡ throws e
        → read.output
          ≡ ([] ++ storage_error e ∷ []) ++ show_value (get byte_sum (99 ∷ []) no_entries) ∷ [])
unfolding new_store
get_behind_set_example =
    get_behind_set byte_sum little [] calm calm Types.calm Types.calm (99 ∷ []) (114 ∷ []) session
      refl

-- "exit"
abbrev exit_line : Bytes
exit_line = 101 ∷ 120 ∷ 105 ∷ 116 ∷ []

run-exit_example :
    run byte_sum little []
      ((calm, Types.calm, 71 ∷ [])
        ∷ (calm, Types.calm, exit_line)
        ∷ (calm, Types.calm, 83 ∷ [])
        ∷ [])
      session
    ≡ run byte_sum little []
        ((calm, Types.calm, 71 ∷ []) ∷ (calm, Types.calm, exit_line) ∷ [])
        session
unfolding is_exit parse trim skip_spaces is_space Parser.parse_tokens split_whitespace_view
    split_from Parser.parse_verb Parser.is_word bytes_discrete to_upper upper command
run-exit_example =
    run-exit byte_sum little [] ((calm, Types.calm, 71 ∷ []) ∷ [])
      ((calm, Types.calm, 83 ∷ []) ∷ []) calm Types.calm exit_line session refl

-- ` quit `
abbrev quit_line : Bytes
quit_line = 32 ∷ b'q' ∷ b'u' ∷ b'i' ∷ b't' ∷ 32 ∷ []

abbrev quit_token : Bytes
quit_token = b'q' ∷ b'u' ∷ b'i' ∷ b't' ∷ []

execute-parse_example :
    let next = execute byte_sum little [] calm Types.calm (parse quit_line) session in
    (SaysExit (quit_token ∷ [])
      → next ≡ record session { running = false; output = session.output ++ bye ∷ [] })
    × (¬ SaysExit (quit_token ∷ []) → next.running ≡ session.running)
unfolding split_whitespace_view split_from is_space
execute-parse_example =
    execute-parse byte_sum little [] calm Types.calm quit_line (quit_token ∷ []) session
      ((split_whitespace_view-Reads quit_line (quit_token ∷ [])).0 refl)
