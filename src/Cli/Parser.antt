-- ===== src/Cli/Parser.antt =====
-- src/parser/cli_parser.cpp: `CliParser::Parse`.
use concurrent_kv_store.Cli.Text.{split_whitespace_view, join_tokens, to_upper, trim}
use concurrent_kv_store.Base.{
  ◌==◌, ◌||◌, length, if◌then◌else◌, bytes_discrete, ◌∷◌, List, ite, Bool, true, false, [], Bytes,
}

pub data CommandType : Type 0 where
  invalid set get del clear_persistence compact_persistence info help exit : CommandType

-- The error messages, by what they say.
pub data Message : Type 0 where
  no_message empty_command usage_set usage_get usage_delete : Message
  usage_clear usage_compact usage_info unknown_command : Message

pub record Command : Type 0 where
  pub type : CommandType
  pub key : Bytes
  pub value : Bytes
  pub error_message : Message

-- `MakeInvalidCommand`
unfoldable pub make_invalid_command : Message → Command
make_invalid_command message = record {
  type = invalid;
  key = [];
  value = [];
  error_message = message;
}

-- A command with its arguments and no message.
unfoldable pub command : CommandType → Bytes → Bytes → Command
command type key value = record {
  type = type;
  key = key;
  value = value;
  error_message = no_message;
}

-- `IsValid`
unfoldable pub is_valid : Command → Bool
is_valid c = elim c.type [ invalid ↦ false | _ ↦ true ]

unfoldable pub is_word : Bytes → Bytes → Bool
is_word a b = ite (bytes_discrete a b) true false

-- What follows the verb, for each of the commands.
unfoldable pub parse_set : List Bytes → Command
parse_set (key ∷ value ∷ values) = command set key (join_tokens (value ∷ values))
parse_set _ = make_invalid_command usage_set

unfoldable pub parse_key : CommandType → Message → List Bytes → Command
parse_key type usage (key ∷ []) = command type key []
parse_key type usage _ = make_invalid_command usage

unfoldable pub parse_bare : CommandType → Message → List Bytes → Command
parse_bare type usage [] = command type [] []
parse_bare type usage _ = make_invalid_command usage

unfoldable pub parse_clear : List Bytes → Command
parse_clear (word ∷ []) =
    if is_word (to_upper word)
      (b'P' ∷ b'E' ∷ b'R' ∷ b'S' ∷ b'I' ∷ b'S' ∷ b'T' ∷ b'E' ∷ b'N' ∷ b'C' ∷ b'E' ∷ [])
    then command clear_persistence [] []
    else make_invalid_command usage_clear
parse_clear _ = make_invalid_command usage_clear

-- The chain of tests on the verb.
unfoldable pub parse_verb : Bytes → List Bytes → Command
parse_verb verb tokens =
    if is_word verb (b'S' ∷ b'E' ∷ b'T' ∷ [])
    then parse_set tokens
    else if is_word verb (b'G' ∷ b'E' ∷ b'T' ∷ [])
    then parse_key get usage_get tokens
    else if is_word verb (b'D' ∷ b'E' ∷ b'L' ∷ [])
        || is_word verb (b'D' ∷ b'E' ∷ b'L' ∷ b'E' ∷ b'T' ∷ b'E' ∷ [])
    then parse_key del usage_delete tokens
    else if is_word verb (
          b'C' ∷ b'L' ∷ b'E' ∷ b'A' ∷ b'R' ∷ b'_' ∷ b'P' ∷ b'E' ∷ b'R' ∷ b'S' ∷ b'I' ∷ b'S' ∷ b'T'
          ∷ b'E' ∷ b'N' ∷ b'C' ∷ b'E' ∷ [])
        || is_word verb (
            b'C' ∷ b'L' ∷ b'E' ∷ b'A' ∷ b'R' ∷ b'-' ∷ b'P' ∷ b'E' ∷ b'R' ∷ b'S' ∷ b'I' ∷ b'S' ∷ b'T'
            ∷ b'E' ∷ b'N' ∷ b'C' ∷ b'E' ∷ [])
    then parse_bare clear_persistence usage_clear tokens
    else if is_word verb (b'C' ∷ b'L' ∷ b'E' ∷ b'A' ∷ b'R' ∷ [])
    then parse_clear tokens
    else if is_word verb (b'C' ∷ b'O' ∷ b'M' ∷ b'P' ∷ b'A' ∷ b'C' ∷ b'T' ∷ [])
        || is_word verb (b'S' ∷ b'N' ∷ b'A' ∷ b'P' ∷ b'S' ∷ b'H' ∷ b'O' ∷ b'T' ∷ [])
    then parse_bare compact_persistence usage_compact tokens
    else if is_word verb (b'I' ∷ b'N' ∷ b'F' ∷ b'O' ∷ [])
        || (is_word verb (b'V' ∷ b'E' ∷ b'R' ∷ b'S' ∷ b'I' ∷ b'O' ∷ b'N' ∷ [])
            || is_word verb (b'S' ∷ b'T' ∷ b'A' ∷ b'T' ∷ b'U' ∷ b'S' ∷ []))
    then parse_bare info usage_info tokens
    else if is_word verb (b'H' ∷ b'E' ∷ b'L' ∷ b'P' ∷ [])
    then command help [] []
    else if is_word verb (b'E' ∷ b'X' ∷ b'I' ∷ b'T' ∷ [])
        || is_word verb (b'Q' ∷ b'U' ∷ b'I' ∷ b'T' ∷ [])
    then command exit [] []
    else make_invalid_command unknown_command

-- A trimmed line that is not empty has a token; the case without one is not reached.
unfoldable pub parse_tokens : List Bytes → Command
parse_tokens [] = make_invalid_command empty_command
parse_tokens (verb ∷ tokens) = parse_verb (to_upper verb) tokens

unfoldable pub parse : Bytes → Command
parse input =
    let trimmed = trim input in
    if length trimmed == 0
    then make_invalid_command empty_command
    else parse_tokens (split_whitespace_view trimmed)
