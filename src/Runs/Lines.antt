-- ===== src/Runs/Lines.antt =====
-- The tokens of a short line.
use concurrent_kv_store.Base.{arith, refl, ◌≡◌, Bytes, ◌∷◌, []}
use concurrent_kv_store.Cli.Text.{split_whitespace_view, join_tokens}
use concurrent_kv_store.Cli.Parser
use concurrent_kv_store.Cli.Parser.{command, parse}
use concurrent_kv_store.Cli.Text.{split_from, is_space}
use concurrent_kv_store.Cli.Requests.{parse-Requests, get_request}
use concurrent_kv_store.Cli.Reading.{Reads, split_whitespace_view-Reads}
use mathlib.Core.Logic.{◌↔◌}
use concurrent_kv_store.Cli.Tokens.{
  split_whitespace_view-IsToken, split_whitespace_view-join_tokens,
}

-- `GET  c`
abbrev line : Bytes
line = b'G' ∷ b'E' ∷ b'T' ∷ 32 ∷ 32 ∷ b'c' ∷ []

split_whitespace_view-Reads_example :
    (split_whitespace_view line ≡ (b'G' ∷ b'E' ∷ b'T' ∷ []) ∷ (b'c' ∷ []) ∷ [])
    ↔ Reads line ((b'G' ∷ b'E' ∷ b'T' ∷ []) ∷ (b'c' ∷ []) ∷ [])
split_whitespace_view-Reads_example =
    split_whitespace_view-Reads line ((b'G' ∷ b'E' ∷ b'T' ∷ []) ∷ (b'c' ∷ []) ∷ [])

split_whitespace_view-join_tokens_example :
    split_whitespace_view (join_tokens (split_whitespace_view line)) ≡ split_whitespace_view line
split_whitespace_view-join_tokens_example =
    split_whitespace_view-join_tokens (split_whitespace_view line)
      (split_whitespace_view-IsToken line)

parse-Requests_example : parse line ≡ command Parser.CommandType.get (b'c' ∷ []) []
unfolding split_whitespace_view split_from is_space
parse-Requests_example =
    parse-Requests line ((b'G' ∷ b'E' ∷ b'T' ∷ []) ∷ (b'c' ∷ []) ∷ [])
      (command Parser.CommandType.get (b'c' ∷ []) [])
      ((split_whitespace_view-Reads line ((b'G' ∷ b'E' ∷ b'T' ∷ []) ∷ (b'c' ∷ []) ∷ [])).0 refl)
      (get_request (b'G' ∷ b'E' ∷ b'T' ∷ []) (b'c' ∷ []) (omega arith))
