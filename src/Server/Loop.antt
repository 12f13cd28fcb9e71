-- ===== src/Server/Loop.antt =====
-- What a command line does to the session.
use concurrent_kv_store.Base.{
  refl, returned, ◌∙◌, ap, sym, ◌∷◌, false, ◌++◌, [], List, ok, true, throws, not_both, Error,
  length, if◌then◌else◌, ℕ, ◌≡◌, not, ◌&&◌, Bytes, arith,
}
use concurrent_kv_store.BinaryIo.{Endian}
use concurrent_kv_store.Cli.Parser.{parse, command, Command, is_valid}
use concurrent_kv_store.Cli.Parser
use concurrent_kv_store.Store.Effects.{set-get}
use concurrent_kv_store.Store.Data.{set, get}
use concurrent_kv_store.Store.State.{shard_count}
use concurrent_kv_store.Server.{
  Response, run, perform, prompt, done, storage_error, show_value, answer, Session, execute, say,
  conclude, is_exit,
}
use concurrent_kv_store.Snapshot.Types.{SnapshotIo}
use concurrent_kv_store.Wal.State.{Io}

module _ (hash : Bytes → ℕ) (host : Endian) (version : Bytes) (io : Io) (sio : SnapshotIo) where
  pub execute-running :
      (c : Command) (s : Session)
      → (execute hash host version io sio c s).running
        ≡ s.running && not (is_valid c && is_exit hash host version c)
  unfolding execute conclude say
  execute-running c s = ground arith

throws≢ok : {A : Type 0} {e : Error} {a : A} → throws e ≡ ok a → ⊥
throws≢ok h = not_both false (ap returned h) refl

exit-IsValid :
    (hash : Bytes → ℕ) (host : Endian) (version : Bytes) (c : Command)
    → is_exit hash host version c ≡ true
    → is_valid c ≡ true
unfolding is_exit is_valid
exit-IsValid hash host version c = ground arith

module _ (hash : Bytes → ℕ) (host : Endian) (version : Bytes) where
  -- Lines of the input behind a line that parses as EXIT make no difference to the session, whatever
  -- the lines before it are.
  pub run-exit :
      (before after : List (Io × SnapshotIo × Bytes)) (io : Io) (sio : SnapshotIo) (line : Bytes)
      (s : Session)
      → is_exit hash host version (parse line) ≡ true
      → run hash host version (before ++ (io, sio, line) ∷ after) s
        ≡ run hash host version (before ++ (io, sio, line) ∷ []) s
  unfolding run
  run-exit [] after io sio line s e =
      let c = parse line in
      let next = execute hash host version io sio c (say prompt s) in
      let stops : next.running ≡ false =
        execute-running hash host version io sio c (say prompt s)
        ∙ ground (arith, e, exit-IsValid hash host version c) in
      rw stops refl
  run-exit ((io, sio, line) ∷ before) after io' sio' line' s e =
      let next = execute hash host version io sio (parse line) (say prompt s) in
      ap (λ (r : Session). if next.running then r else next)
        (run-exit before after io' sio' line' next e)

  -- In a session on a store with all its shards, under any hash and whatever the system answers: a GET
  -- behind a SET of the same key prints the value behind the OK when the SET returns; when the SET
  -- throws, it prints the value from before behind the error.
  pub get_behind_set :
      (io io' : Io) (sio sio' : SnapshotIo) (key value : Bytes) (s : Session)
      → length s.store.shards ≡ shard_count
      → let written =
          execute hash host version io sio (command Parser.CommandType.set key value) s in
        let read =
          execute hash host version io' sio' (command Parser.CommandType.get key []) written in
        let p = set hash io key value s.store in
        (p.0 ≡ ok tt → read.output ≡ (s.output ++ done ∷ []) ++ Response.value value ∷ [])
        × ((e : Error)
            → p.0 ≡ throws e
            → read.output
              ≡ (s.output ++ storage_error e ∷ []) ++ show_value (get hash key s.store) ∷ [])
  unfolding execute perform conclude say answer command is_valid show_value is_exit
  get_behind_set io io' sio sio' key value s size =
      let (returns, fails) = set-get hash io key value s.store size in
      (
        λ done_eq. let (found, _) = returns done_eq in rw done_eq (rw found refl),
        λ e thrown. rw thrown (rw (fails (λ h. absurd (throws≢ok (sym thrown ∙ h))) key) refl),
      )
