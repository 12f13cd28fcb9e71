-- ===== src/Cli/Text.antt =====
-- src/common/string_utils.cpp: `Trim`, `SplitWhitespaceView` and `ToUpper`, in the "C" locale.
use concurrent_kv_store.Base.{
  ◌++◌, ℕ, ◌-◌, Bool, ◌&&◌, ◌||◌, List, [], ◌∷◌, Bytes, leb, ◌==◌, if◌then◌else◌,
}
use mathlib.Core.List.{reverse}

-- `std::isspace`: space, and the bytes from tab to carriage return.
unfoldable pub is_space : ℕ → Bool
is_space b = (b == 32) || (leb 9 b && leb b 13)

-- `std::toupper`
unfoldable pub upper : ℕ → ℕ
upper b = if leb 97 b && leb b 122 then b - 32 else b

-- The bytes behind the spaces at the front.
unfoldable pub skip_spaces : Bytes → Bytes
skip_spaces [] = []
skip_spaces (b ∷ bs) = if is_space b then skip_spaces bs else b ∷ bs

-- `Trim`: the spaces at the front go, and then those at the end.
unfoldable pub trim : Bytes → Bytes
trim input = reverse (skip_spaces (reverse (skip_spaces input)))

-- A token that ends is kept unless it is empty.
abbrev pub keep : Bytes → List Bytes → List Bytes
keep [] tokens = tokens
keep (b ∷ bs) tokens = (b ∷ bs) ∷ tokens

-- The token that a text starts with, which may be empty, and the tokens behind it.
unfoldable pub split_from : Bytes → Bytes × List Bytes
split_from [] = ([], [])
split_from (b ∷ bs) =
    let (token, tokens) = split_from bs in
    if is_space b then ([], keep token tokens) else (b ∷ token, tokens)

-- `SplitWhitespaceView`
unfoldable pub split_whitespace_view : Bytes → List Bytes
split_whitespace_view input = let (token, tokens) = split_from input in keep token tokens

-- `ToUpper`
unfoldable pub to_upper : Bytes → Bytes
to_upper [] = []
to_upper (b ∷ bs) = upper b ∷ to_upper bs

-- `JoinTokens`: single spaces between the tokens.
unfoldable pub join_tokens : List Bytes → Bytes
join_tokens [] = []
join_tokens (token ∷ []) = token
join_tokens (token ∷ next ∷ tokens) = token ++ 32 ∷ join_tokens (next ∷ tokens)
