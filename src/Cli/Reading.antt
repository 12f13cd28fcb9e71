-- ===== src/Cli/Reading.antt =====
-- What it means to cut a line into tokens, apart from how `SplitWhitespaceView` scans it.
use concurrent_kv_store.Base.{
  append-nil, sym, ◌∙◌, ℕ, ◌≡◌, ◌⊎◌, ◌≤◌, ◌<◌, ◌++◌, ◌∷◌, [], inl, inr, Bytes, List, true, false,
  All, Bool-cases, arith, refl, ap, length,
}
use mathlib.Core.Path.{subst}
use mathlib.Core.Logic.{◌↔◌}
use concurrent_kv_store.Cli.Tokens.{HasNoSpace, split_from-append, keep-token, split_keep}
use concurrent_kv_store.Cli.Text.{is_space, keep, split_from, split_whitespace_view}

-- A space, a tab, a line feed, a vertical tab, a form feed or a carriage return.
abbrev pub IsBlank : ℕ → Type 0
IsBlank b = (b ≡ 32) ⊎ ((9 ≤ b) × (b ≤ 13))

-- A byte of a token.
abbrev pub IsSolid : ℕ → Type 0
IsSolid b = ¬ IsBlank b

-- Where a token can end: at the end of the line, or before a blank.
abbrev pub Ends : Bytes → Type 0
Ends [] = Unit {0}
Ends (b ∷ bs) = IsBlank b

-- The line is the tokens in their order, with blanks before, between and behind them, and each token
-- is a whole run of bytes that are not blank.
abbrev pub Reads : Bytes → List Bytes → Type 0
Reads line [] = All IsBlank line
Reads line (token ∷ tokens) =
    (blanks : Bytes) × (rest : Bytes) × (line ≡ blanks ++ (token ++ rest))
    × All IsBlank blanks
    × (0 < length token)
    × All IsSolid token
    × Ends rest
    × Reads rest tokens

is_space-IsBlank : (b : ℕ) → is_space b ≡ true → IsBlank b
unfolding is_space
is_space-IsBlank b h = ground arith

is_space-IsSolid : (b : ℕ) → is_space b ≡ false → IsSolid b
unfolding is_space
is_space-IsSolid b h = ground arith

Reads-blank :
    (b : ℕ) (line : Bytes) (tokens : List Bytes)
    → IsBlank b
    → Reads line tokens
    → Reads (b ∷ line) tokens
Reads-blank b line [] h r = (h, r)
Reads-blank b line (token ∷ tokens) h (blanks, rest, e, before, r, solid, ends, reads) =
    (b ∷ blanks, rest, ap (λ (l : Bytes). b ∷ l) e, (h, before), r, solid, ends, reads)

-- A scan that stands in a token, which may be empty.
record Scans (line token : Bytes) (tokens : List Bytes) : Type 0 where
  rest : Bytes
  line_eq : line ≡ token ++ rest
  solid : All IsSolid token
  ends : Ends rest
  reads : Reads rest tokens

-- The token that the line starts with is kept.
keep-Reads :
    (line token : Bytes) (tokens : List Bytes)
    → Scans line token tokens
    → Reads line (keep token tokens)
keep-Reads line [] tokens s = rw (s.line_eq) (s.reads)
keep-Reads line (b ∷ bs) tokens s =
    ([], s.rest, s.line_eq, tt, omega arith, s.solid, s.ends, s.reads)

split_from-Scans : (line : Bytes) → Scans line (split_from line).0 (split_from line).1
unfolding split_from
split_from-Scans [] = record { rest = []; line_eq = refl; solid = tt; ends = tt; reads = tt }
split_from-Scans (b ∷ bs) =
    let s = split_from-Scans bs in
    elim (Bool-cases (is_space b)) [
      | inl space ↦
          let blank = is_space-IsBlank b space in
          rw space (record {
            rest = b ∷ bs;
            line_eq = refl;
            solid = tt;
            ends = blank;
            reads =
                Reads-blank b bs (keep (split_from bs).0 (split_from bs).1) blank
                  (keep-Reads bs (split_from bs).0 (split_from bs).1 s);
          })
      | inr none ↦ rw none (record {
        rest = s.rest;
        line_eq = ap (λ (l : Bytes). b ∷ l) s.line_eq;
        solid = (is_space-IsSolid b none, s.solid);
        ends = s.ends;
        reads = s.reads;
      })
    ]

split-Reads : (line : Bytes) → Reads line (split_whitespace_view line)
unfolding split_whitespace_view
split-Reads line = keep-Reads line (split_from line).0 (split_from line).1 (split_from-Scans line)

IsBlank-is_space : (b : ℕ) → IsBlank b → is_space b ≡ true
unfolding is_space
IsBlank-is_space b h = ground arith

IsSolid-is_space : (b : ℕ) → IsSolid b → is_space b ≡ false
IsSolid-is_space b h = elim (Bool-cases (is_space b)) [
  | inl space ↦ absurd (h (is_space-IsBlank b space))
  | inr none ↦ none
]

solid-HasNoSpace : (token : Bytes) → All IsSolid token → HasNoSpace token
solid-HasNoSpace [] h = tt
solid-HasNoSpace (b ∷ bs) h = (IsSolid-is_space b (h.0), solid-HasNoSpace bs (h.1))

split-blanks :
    (blanks line : Bytes)
    → All IsBlank blanks
    → split_whitespace_view (blanks ++ line) ≡ split_whitespace_view line
unfolding split_whitespace_view split_from
split-blanks [] line h = refl
split-blanks (b ∷ bs) line h =
    rw (IsBlank-is_space b (h.0)) (unfold split_whitespace_view in split-blanks bs line (h.1))

split-Ends : (rest : Bytes) → Ends rest → split_from rest ≡ ([], split_whitespace_view rest)
unfolding split_whitespace_view split_from
split-Ends [] h = refl
split-Ends (b ∷ bs) h = rw (IsBlank-is_space b h) refl

split_token :
    (token rest : Bytes)
    → 0 < length token
    → All IsSolid token
    → Ends rest
    → split_whitespace_view (token ++ rest) ≡ token ∷ split_whitespace_view rest
split_token token rest nonempty solid ends =
    split_keep (token ++ rest) token (split_whitespace_view rest) (
      split_from-append token rest (solid-HasNoSpace token solid)
      ∙ ap (λ (p : Bytes × List Bytes). (token ++ p.0, p.1)) (split-Ends rest ends)
      ∙ ap (λ (t : Bytes). (t, split_whitespace_view rest)) (append-nil token))
    ∙ keep-token token (split_whitespace_view rest) nonempty

pub Reads-split :
    (line : Bytes) (tokens : List Bytes) → Reads line tokens → split_whitespace_view line ≡ tokens
Reads-split line [] h =
    ap split_whitespace_view (sym (append-nil line))
    ∙ split-blanks line [] h
    ∙ (unfold split_whitespace_view in unfold split_from in refl)
Reads-split line (token ∷ tokens) (blanks, rest, e, before, nonempty, solid, ends, reads) =
    ap split_whitespace_view e
    ∙ split-blanks blanks (token ++ rest) before
    ∙ split_token token rest nonempty solid ends
    ∙ ap (λ (l : List Bytes). token ∷ l) (Reads-split rest tokens reads)

-- A line is split into some tokens exactly when it is these tokens in their order with blanks before,
-- between and behind them, where each token is a whole run, not empty, of bytes that are not blank: it
-- ends at the end of the line or before a blank. A blank is a space or a byte from the tab to the
-- carriage return.
pub split_whitespace_view-Reads :
    (line : Bytes) (tokens : List Bytes) → (split_whitespace_view line ≡ tokens) ↔ Reads line tokens
split_whitespace_view-Reads line tokens =
    (λ e. subst (Reads line) e (split-Reads line), Reads-split line tokens)
