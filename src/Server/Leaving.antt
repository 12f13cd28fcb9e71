-- ===== src/Server/Leaving.antt =====
-- Which lines end the command loop.
use concurrent_kv_store.Base.{ℕ, ◌≡◌, ◌≢◌, ◌∙◌, ◌∷◌, ◌++◌, [], false, Bytes, List, ap, arith, refl}
use concurrent_kv_store.BinaryIo.{Endian}
use concurrent_kv_store.Cli.Lines.{parse-Reads}
use concurrent_kv_store.Cli.Parser
use concurrent_kv_store.Cli.Parser.{Command, CommandType, parse, parse_tokens, command, is_valid}
use concurrent_kv_store.Cli.Reading.{Reads}
use concurrent_kv_store.Cli.Words.{SaysExit, parse_tokens-exit, parse_tokens-NotExit}
use concurrent_kv_store.Server.{Session, execute, perform, conclude, say, is_exit, bye}
use concurrent_kv_store.Server.Loop.{execute-running}
use concurrent_kv_store.Snapshot.Types.{SnapshotIo}
use concurrent_kv_store.Wal.State.{Io}

module _ (hash : Bytes → ℕ) (host : Endian) (version : Bytes) (io : Io) (sio : SnapshotIo) where
  is_exit-false :
      (c : Command) → c.type ≢ Parser.CommandType.exit → is_exit hash host version c ≡ false
  unfolding is_exit
  is_exit-false c h = ground (arith, h)

  execute-NotExit :
      (c : Command) (s : Session)
      → c.type ≢ Parser.CommandType.exit
      → (execute hash host version io sio c s).running ≡ s.running
  execute-NotExit c s h =
      execute-running hash host version io sio c s ∙ ground (arith, is_exit-false c h)

  execute-exit :
      (s : Session)
      → execute hash host version io sio (command Parser.CommandType.exit [] []) s
        ≡ record s { running = false; output = s.output ++ bye ∷ [] }
  unfolding execute perform conclude say is_exit is_valid command
  execute-exit s = refl

  -- Let a line read as some tokens, whole runs of bytes that are not blank with blanks around them.
  -- Whatever the system answers, executing what it parses to prints Bye and clears the running flag,
  -- and changes nothing else, where the first token is EXIT or QUIT in letters of either case, whatever
  -- tokens follow; where it is another word, or there is no token, the running flag stays as it was, be
  -- it that the line is invalid or that the store throws.
  pub execute-parse :
      (line : Bytes) (tokens : List Bytes) (s : Session)
      → Reads line tokens
      → let next = execute hash host version io sio (parse line) s in
        (SaysExit tokens → next ≡ record s { running = false; output = s.output ++ bye ∷ [] })
        × (¬ SaysExit tokens → next.running ≡ s.running)
  execute-parse line tokens s h =
      let parsed = parse-Reads line tokens h in
      (
        λ leaves.
            ap (λ c. execute hash host version io sio c s)
              (parsed ∙ parse_tokens-exit tokens leaves)
            ∙ execute-exit s,
        λ stays. execute-NotExit (parse line) s (rw parsed (parse_tokens-NotExit tokens stays)),
      )
