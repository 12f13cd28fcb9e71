-- ===== src/Server.antt =====
-- src/server/cli_server.cpp: the command loop.
pub mod Loop
pub mod Leaving
pub mod Durable
pub mod Dictionary
use concurrent_kv_store.Base.{
  ℕ, Bool, true, false, not, Option, none, some, List, [], ◌∷◌, ◌++◌, Bytes, if◌then◌else◌, Error,
  Result, ok, throws, stuck,
}
use concurrent_kv_store.BinaryIo.{Endian}
use concurrent_kv_store.Cli.Parser
use concurrent_kv_store.Cli.Parser.{Command, Message, parse, is_valid}
use concurrent_kv_store.Snapshot.Types.{SnapshotIo}
use concurrent_kv_store.Store.Data
use concurrent_kv_store.Store.Data.{size}
use concurrent_kv_store.Store.Persistence.{clear_persistence, compact_persistence}
use concurrent_kv_store.Store.State.{Store}
use concurrent_kv_store.Wal.State.{Io}

-- What is written to the output stream, by what it says. The version comes from the build.
pub data Response : Type 0 where
  prompt end_of_input : Response
  parse_error : Message → Response
  storage_error : Error → Response
  done nil persistence_cleared snapshot_compacted snapshot_not_configured : Response
  value : Bytes → Response
  erased : Bool → Response
  info_text : Bytes → ℕ → Response
  help_text : Bytes → Response
  bye invalid_command : Response
  usage loading_snapshot replaying_wal : Response
  title : Bytes → Response
  loaded_entries recovered_count : ℕ → Response

-- The loop's variables: the store, `running`, and what was written.
pub record Session : Type 0 where
  pub store : Store
  pub running : Bool
  pub output : List Response

unfoldable pub say : Response → Session → Session
say response s = record s { output = s.output ++ response ∷ [] }

-- `value.has_value() ? *value : "(nil)"`
unfoldable pub show_value : Option Bytes → Response
show_value none = nil
show_value (some v) = value v

unfoldable pub show_compacted : Bool → Response
show_compacted true = snapshot_compacted
show_compacted false = snapshot_not_configured

-- What a call of the store is answered with.
unfoldable pub answer {ℓ} :
    {A : Type ℓ} → (A → Response) → Result A × Store → Result Response × Store
answer f (ok a, st) = (ok (f a), st)
answer f (throws e, st) = (throws e, st)
answer f (stuck, st) = (stuck, st)

module _ (hash : Bytes → ℕ) (host : Endian) (version : Bytes) where
  -- The `try` block but for `EXIT`, which also clears `running`.
  unfoldable pub perform : Io → SnapshotIo → Command → Store → Result Response × Store
  perform io sio c st = elim c.type [
    | Parser.CommandType.set ↦ answer (λ _. done) (Data.set hash io c.key c.value st)
    | Parser.CommandType.get ↦ (ok (show_value (Data.get hash c.key st)), st)
    | Parser.CommandType.del ↦ answer erased (Data.delete hash io c.key st)
    | Parser.CommandType.clear_persistence ↦
        answer (λ _. persistence_cleared) (clear_persistence io sio st)
    | Parser.CommandType.compact_persistence ↦
        answer show_compacted (compact_persistence host io sio st)
    | Parser.CommandType.info ↦ (ok (info_text version (size st)), st)
    | Parser.CommandType.help ↦ (ok (help_text version), st)
    | Parser.CommandType.exit ↦ (ok bye, st)
    | Parser.CommandType.invalid ↦ (ok invalid_command, st)
  ]

  unfoldable pub is_exit : Command → Bool
  is_exit c = elim c.type [ Parser.CommandType.exit ↦ true | _ ↦ false ]

  -- What the block, or its handler, leaves.
  unfoldable pub conclude : Result Response × Store → Session → Session
  conclude (ok response, st) s = say response (record s { store = st })
  conclude (throws e, st) s = say (storage_error e) (record s { store = st })
  conclude (stuck, st) s = record s { store = st }

  -- `Execute`
  unfoldable pub execute : Io → SnapshotIo → Command → Session → Session
  execute io sio c s =
      if not (is_valid c)
      then say (parse_error c.error_message) s
      else (let after = conclude (perform io sio c s.store) s in
          if is_exit c then record after { running = false } else after)

  -- `Run` on the lines of the input, each with what the system answers to its command.
  unfoldable pub run : List (Io × SnapshotIo × Bytes) → Session → Session
  run [] s = say end_of_input (say prompt s)
  run ((io, sio, line) ∷ lines) s =
      let after = execute io sio (parse line) (say prompt s) in
      let rest = run lines after in if after.running then rest else after
