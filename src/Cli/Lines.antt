-- ===== src/Cli/Lines.antt =====
-- `Parse` by the tokens that a line reads as, be they trimmed or not.
use concurrent_kv_store.Base.{
  suc, ℕ, ◌≡◌, ◌++◌, ◌∷◌, [], inl, inr, Bytes, List, true, false, All, All-append, Bool-cases,
  arith, refl, ◌∙◌, ap, sym, length, ◌==◌, if◌then◌else◌,
}
use mathlib.Core.List.{reverse, reverse-append, reverse-reverse, reverse-cons}
use concurrent_kv_store.Cli.Parser.{parse, parse_tokens, make_invalid_command, empty_command}
use concurrent_kv_store.Cli.Reading.{Reads, Reads-split}
use concurrent_kv_store.Cli.Text.{
  is_space, keep, skip_spaces, split_from, split_whitespace_view, trim,
}

abbrev IsSpace : Bytes → Type 0
IsSpace = All (λ b. is_space b ≡ true)

split-skip_spaces :
    (line : Bytes) → split_whitespace_view (skip_spaces line) ≡ split_whitespace_view line
unfolding skip_spaces
split-skip_spaces [] = refl
split-skip_spaces (b ∷ bs) = elim (Bool-cases (is_space b)) [
  | inl space ↦
      rw space (
        split-skip_spaces bs ∙ (unfold split_whitespace_view in unfold split_from in rw space refl))
  | inr none ↦ rw none refl
]

-- The spaces that are skipped.
skipped : (line : Bytes) → (blanks : Bytes) × (line ≡ blanks ++ skip_spaces line) × IsSpace blanks
unfolding skip_spaces
skipped [] = ([], refl, tt)
skipped (b ∷ bs) =
    let (blanks, e, h) = skipped bs in
    elim (Bool-cases (is_space b)) [
      | inl space ↦ (b ∷ blanks, rw space (ap (λ (l : Bytes). b ∷ l) e), (space, h))
      | inr none ↦ ([], rw none refl, tt)
    ]

reverse-IsSpace : (blanks : Bytes) → IsSpace blanks → IsSpace (reverse blanks)
reverse-IsSpace [] h = tt
reverse-IsSpace (b ∷ bs) h =
    rw (reverse-cons b bs) (
      All-append (λ b. is_space b ≡ true) (reverse bs) (b ∷ []) (reverse-IsSpace bs (h.1))
        (h.0, tt))

split_from-spaces : (blanks : Bytes) → IsSpace blanks → split_from blanks ≡ ([], [])
unfolding split_from
split_from-spaces [] h = refl
split_from-spaces (b ∷ bs) h = rw (h.0) (rw (split_from-spaces bs (h.1)) refl)

split_from-trailing :
    (line blanks : Bytes) → IsSpace blanks → split_from (line ++ blanks) ≡ split_from line
unfolding split_from
split_from-trailing [] blanks h = split_from-spaces blanks h
split_from-trailing (b ∷ bs) blanks h = rw (split_from-trailing bs blanks h) refl

split-trailing :
    (line blanks : Bytes)
    → IsSpace blanks
    → split_whitespace_view (line ++ blanks) ≡ split_whitespace_view line
unfolding split_whitespace_view
split-trailing line blanks h =
    ap (λ (p : Bytes × List Bytes). keep p.0 p.1) (split_from-trailing line blanks h)

-- Trimming a line does not change its tokens.
split-trim : (line : Bytes) → split_whitespace_view (trim line) ≡ split_whitespace_view line
unfolding trim
split-trim line =
    let front = skip_spaces line in
    let (blanks, e, spaces) = skipped (reverse front) in
    let parts : front ≡ reverse (skip_spaces (reverse front)) ++ reverse blanks =
      sym (reverse-reverse front)
      ∙ ap reverse e
      ∙ reverse-append blanks (skip_spaces (reverse front)) in
    sym (split-trailing (trim line) (reverse blanks) (reverse-IsSpace blanks spaces))
    ∙ ap split_whitespace_view (sym parts)
    ∙ split-skip_spaces line

suc-==-zero : (n : ℕ) → (suc n == 0) ≡ false
suc-==-zero n = ground arith

-- The test for an empty line decides nothing that its tokens do not.
tested_empty :
    (line : Bytes)
    → (if length line == 0
        then make_invalid_command empty_command
        else parse_tokens (split_whitespace_view line))
      ≡ parse_tokens (split_whitespace_view line)
unfolding parse_tokens split_whitespace_view split_from
tested_empty [] = refl
tested_empty (b ∷ bs) = rw (suc-==-zero (length bs)) refl

parse-split_whitespace_view :
    (line : Bytes) → parse line ≡ parse_tokens (split_whitespace_view line)
unfolding parse
parse-split_whitespace_view line = tested_empty (trim line) ∙ ap parse_tokens (split-trim line)

-- A line is parsed by the tokens that it reads as.
pub parse-Reads :
    (line : Bytes) (tokens : List Bytes) → Reads line tokens → parse line ≡ parse_tokens tokens
parse-Reads line tokens h =
    parse-split_whitespace_view line ∙ ap parse_tokens (Reads-split line tokens h)
