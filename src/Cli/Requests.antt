-- ===== src/Cli/Requests.antt =====
-- The forms of the commands, apart from how `Parse` tells them from each other.
use concurrent_kv_store.Base.{
  ◌≡◌, ◌⊎◌, ◌∷◌, [], inl, inr, Bytes, List, arith, refl, ◌∙◌, bytes_discrete,
}
use concurrent_kv_store.Cli.Lines.{parse-Reads}
use concurrent_kv_store.Cli.Parser
use concurrent_kv_store.Cli.Parser.{
  Command, CommandType, parse, parse_tokens, parse_verb, parse_set, parse_key, parse_bare,
  parse_clear, command, is_word,
}
use concurrent_kv_store.Cli.Reading.{Reads}
use concurrent_kv_store.Cli.Text.{join_tokens}
use concurrent_kv_store.Cli.Words.{Spells, SaysExit, Spells-to_upper, parse_tokens-exit}

abbrev pub set_word : Bytes
set_word = b'S' ∷ b'E' ∷ b'T' ∷ []

abbrev pub get_word : Bytes
get_word = b'G' ∷ b'E' ∷ b'T' ∷ []

abbrev pub del_word : Bytes
del_word = b'D' ∷ b'E' ∷ b'L' ∷ []

abbrev pub delete_word : Bytes
delete_word = b'D' ∷ b'E' ∷ b'L' ∷ b'E' ∷ b'T' ∷ b'E' ∷ []

abbrev pub clear_word : Bytes
clear_word = b'C' ∷ b'L' ∷ b'E' ∷ b'A' ∷ b'R' ∷ []

abbrev pub persistence_word : Bytes
persistence_word = b'P' ∷ b'E' ∷ b'R' ∷ b'S' ∷ b'I' ∷ b'S' ∷ b'T' ∷ b'E' ∷ b'N' ∷ b'C' ∷ b'E' ∷ []

abbrev pub compact_word : Bytes
compact_word = b'C' ∷ b'O' ∷ b'M' ∷ b'P' ∷ b'A' ∷ b'C' ∷ b'T' ∷ []

abbrev pub snapshot_word : Bytes
snapshot_word = b'S' ∷ b'N' ∷ b'A' ∷ b'P' ∷ b'S' ∷ b'H' ∷ b'O' ∷ b'T' ∷ []

abbrev pub info_word : Bytes
info_word = b'I' ∷ b'N' ∷ b'F' ∷ b'O' ∷ []

abbrev pub version_word : Bytes
version_word = b'V' ∷ b'E' ∷ b'R' ∷ b'S' ∷ b'I' ∷ b'O' ∷ b'N' ∷ []

abbrev pub status_word : Bytes
status_word = b'S' ∷ b'T' ∷ b'A' ∷ b'T' ∷ b'U' ∷ b'S' ∷ []

abbrev pub help_word : Bytes
help_word = b'H' ∷ b'E' ∷ b'L' ∷ b'P' ∷ []

-- The tokens of a command, and the command.
pub data Requests : List Bytes → Command → Type 0 where
  set_request :
      (verb key text : Bytes) (texts : List Bytes)
      → Spells verb set_word
      → Requests
          (verb ∷ key ∷ text ∷ texts)
          (command Parser.CommandType.set key (join_tokens (text ∷ texts)))
  get_request :
      (verb key : Bytes)
      → Spells verb get_word
      → Requests (verb ∷ key ∷ []) (command Parser.CommandType.get key [])
  del_request :
      (verb key : Bytes)
      → Spells verb del_word ⊎ Spells verb delete_word
      → Requests (verb ∷ key ∷ []) (command Parser.CommandType.del key [])
  clear_request :
      (verb next : Bytes)
      → Spells verb clear_word
      → Spells next persistence_word
      → Requests (verb ∷ next ∷ []) (command Parser.CommandType.clear_persistence [] [])
  compact_request :
      (verb : Bytes)
      → Spells verb compact_word ⊎ Spells verb snapshot_word
      → Requests (verb ∷ []) (command Parser.CommandType.compact_persistence [] [])
  info_request :
      (verb : Bytes)
      → Spells verb info_word ⊎ (Spells verb version_word ⊎ Spells verb status_word)
      → Requests (verb ∷ []) (command Parser.CommandType.info [] [])
  help_request :
      (verb : Bytes) (rest : List Bytes)
      → Spells verb help_word
      → Requests (verb ∷ rest) (command Parser.CommandType.help [] [])
  exit_request :
      (tokens : List Bytes)
      → SaysExit tokens
      → Requests tokens (command Parser.CommandType.exit [] [])

parse_tokens-Requests :
    (tokens : List Bytes) (c : Command) → Requests tokens c → parse_tokens tokens ≡ c
unfolding parse_tokens parse_verb is_word bytes_discrete parse_set parse_key parse_bare parse_clear
parse_tokens-Requests _ _ (set_request verb key text texts h) =
    rw (Spells-to_upper verb set_word (omega arith) h) refl
parse_tokens-Requests _ _ (get_request verb key h) =
    rw (Spells-to_upper verb get_word (omega arith) h) refl
parse_tokens-Requests _ _ (del_request verb key (inl h)) =
    rw (Spells-to_upper verb del_word (omega arith) h) refl
parse_tokens-Requests _ _ (del_request verb key (inr h)) =
    rw (Spells-to_upper verb delete_word (omega arith) h) refl
parse_tokens-Requests _ _ (clear_request verb next h k) =
    rw (Spells-to_upper verb clear_word (omega arith) h)
      (rw (Spells-to_upper next persistence_word (omega arith) k) refl)
parse_tokens-Requests _ _ (compact_request verb (inl h)) =
    rw (Spells-to_upper verb compact_word (omega arith) h) refl
parse_tokens-Requests _ _ (compact_request verb (inr h)) =
    rw (Spells-to_upper verb snapshot_word (omega arith) h) refl
parse_tokens-Requests _ _ (info_request verb (inl h)) =
    rw (Spells-to_upper verb info_word (omega arith) h) refl
parse_tokens-Requests _ _ (info_request verb (inr (inl h))) =
    rw (Spells-to_upper verb version_word (omega arith) h) refl
parse_tokens-Requests _ _ (info_request verb (inr (inr h))) =
    rw (Spells-to_upper verb status_word (omega arith) h) refl
parse_tokens-Requests _ _ (help_request verb rest h) =
    rw (Spells-to_upper verb help_word (omega arith) h) refl
parse_tokens-Requests tokens _ (exit_request _ h) = parse_tokens-exit tokens h

-- A line that reads as the tokens of a command, whatever blanks stand around them and in letters of
-- either case but for key and value, parses to that command: SET, a key and one or more tokens, whose
-- value is these tokens joined by single spaces; GET and a key; DEL or DELETE and a key; CLEAR and
-- PERSISTENCE; COMPACT or SNAPSHOT alone; INFO, VERSION or STATUS alone; HELP, EXIT or QUIT with any
-- tokens behind it.
pub parse-Requests :
    (line : Bytes) (tokens : List Bytes) (c : Command)
    → Reads line tokens
    → Requests tokens c
    → parse line ≡ c
parse-Requests line tokens c reads h =
    parse-Reads line tokens reads ∙ parse_tokens-Requests tokens c h
