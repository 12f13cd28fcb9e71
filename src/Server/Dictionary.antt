-- ===== src/Server/Dictionary.antt =====
-- The server seen as a dictionary: what each command answers, and what it makes of the data.
use concurrent_kv_store.Base.{
  Bool, arith, inl, inr, ◌⊎◌, ℕ, ◌≡◌, true, false, none, some, Bytes, ok, throws, stuck, returned,
  refl, Result, ite, bytes_discrete, ◌++◌, ◌∷◌, [],
}
use concurrent_kv_store.BinaryIo.{Endian}
use concurrent_kv_store.Cli.Parser
use concurrent_kv_store.Cli.Parser.{Command, CommandType, Message, is_valid}
use concurrent_kv_store.Server.{
  Response, Session, answer, conclude, say, done, nil, value, erased, snapshot_compacted,
  persistence_cleared, info_text, help_text, bye, parse_error,
}
use concurrent_kv_store.Snapshot.Types.{SnapshotIo}
use concurrent_kv_store.Store.Data.{get}
use concurrent_kv_store.Store.Persistence.{
  clear_persistence, cancel_pending_checkpoint, reset_writes,
}
use concurrent_kv_store.Store.State.{Store}
use concurrent_kv_store.System.{System}
use concurrent_kv_store.System.Sound.{Sound}
use concurrent_kv_store.Wal.Replay.View.{View, SameView}
use concurrent_kv_store.Wal.State.{Io}

-- A store that no checkpoint is at work on.
abbrev pub idle : Store → System
idle st = record { store = st; captured = none }

-- Commands other than CLEAR PERSISTENCE.
abbrev pub keeps_files : CommandType → Bool
keeps_files Parser.CommandType.clear_persistence = false
keeps_files _ = true

-- What a command makes of a dictionary.
abbrev pub edited : CommandType → Bytes → Bytes → View → View
edited Parser.CommandType.set key text v other =
    ite (bytes_discrete key other) (some text) (v other)
edited Parser.CommandType.del key text v other = ite (bytes_discrete key other) none (v other)
edited _ key text v other = v other

-- What it prints, from the dictionary before it.
abbrev pub Prints : Bytes → CommandType → Bytes → Message → View → Response → Type 0
Prints version Parser.CommandType.set key error v r = r ≡ done
Prints version Parser.CommandType.get key error v r =
    (v key ≡ none → r ≡ nil) × ((text : Bytes) → v key ≡ some text → r ≡ value text)
Prints version Parser.CommandType.del key error v r =
    (v key ≡ none → r ≡ erased false) × ((text : Bytes) → v key ≡ some text → r ≡ erased true)
Prints version Parser.CommandType.clear_persistence key error v r = r ≡ persistence_cleared
Prints version Parser.CommandType.compact_persistence key error v r = r ≡ snapshot_compacted
Prints version Parser.CommandType.info key error v r = (n : ℕ) × (r ≡ info_text version n)
Prints version Parser.CommandType.help key error v r = r ≡ help_text version
Prints version Parser.CommandType.exit key error v r = r ≡ bye
Prints version Parser.CommandType.invalid key error v r = r ≡ parse_error error

-- The dictionary that the store of a session answers as.
abbrev pub dictionary : (Bytes → ℕ) → Session → View
dictionary hash s key = get hash key s.store

-- A command that the session carried out.
pub record Served (hash : Bytes → ℕ) (host : Endian) (version : Bytes) (c : Command)
    (s next : Session) : Type 0 where
  pub response : Response
  pub printed : next.output ≡ s.output ++ response ∷ []
  pub prints : Prints version c.type c.key c.error_message (dictionary hash s) response
  pub edits : SameView (dictionary hash next) (edited c.type c.key c.value (dictionary hash s))
  pub keeps : keeps_files c.type ≡ true → Sound hash host (idle next.store)

-- A command on which the store threw.
pub record Refused (hash : Bytes → ℕ) (s next : Session) : Type 0 where
  pub same : SameView (dictionary hash next) (dictionary hash s)
  pub running : next.running ≡ s.running

abbrev pub Executed : (Bytes → ℕ) → Endian → Bytes → Command → Session → Session → Type 0
Executed hash host version c s next = Served hash host version c s next ⊎ Refused hash s next

module _ (hash : Bytes → ℕ) (host : Endian) (version : Bytes) (c : Command) (s : Session) where
  -- What a call that returned has to show.
  abbrev pub Returns : Response → Store → Type 0
  Returns r st =
      Prints version c.type c.key c.error_message (dictionary hash s) r
      × SameView (λ key. get hash key st) (edited c.type c.key c.value (dictionary hash s))
      × (keeps_files c.type ≡ true → Sound hash host (idle st))

  pub called :
      {A : Type 0} (f : A → Response) (p : Result A × Store)
      → ((a : A) → p.0 ≡ ok a → Returns (f a) p.1)
      → (returned p.0 ≡ false → SameView (λ key. get hash key p.1) (dictionary hash s))
      → Executed hash host version c s (conclude hash host version (answer f p) s)
  unfolding answer conclude say
  called f (ok a, st) good bad =
      let (prints, edits, keeps) = good a refl in
      inl (record { response = f a; printed = refl; prints = prints; edits = edits; keeps = keeps })
  called f (throws e, st) good bad = inr (record { same = bad refl; running = refl })
  called f (stuck, st) good bad = inr (record { same = bad refl; running = refl })

pub clear-shards :
    (io : Io) (sio : SnapshotIo) (st : Store) → (clear_persistence io sio st).1.shards ≡ st.shards
unfolding clear_persistence cancel_pending_checkpoint reset_writes
clear-shards io sio st = ground arith
