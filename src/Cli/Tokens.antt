-- ===== src/Cli/Tokens.antt =====
-- The tokens of a line, and the line that joins them.
use concurrent_kv_store.Base.{
  append-nil, ◌∙◌, sym, [], arith, ap, length, ◌<◌, ◌∷◌, ◌++◌, Bool, List, Bytes, ℕ, refl, ◌≡◌,
  false, true, All,
}
use concurrent_kv_store.Cli.Text.{is_space, keep, split_from, split_whitespace_view, join_tokens}

-- No space in it.
abbrev pub HasNoSpace : Bytes → Type 0
HasNoSpace = All (λ b. is_space b ≡ false)

-- A token
pub record IsToken (token : Bytes) : Type 0 where
  pub nonempty : 0 < length token
  pub solid : HasNoSpace token

keep-IsToken :
    (token : Bytes) (tokens : List Bytes)
    → HasNoSpace token
    → All IsToken tokens
    → All IsToken (keep token tokens)
keep-IsToken [] tokens s h = h
keep-IsToken (b ∷ bs) tokens s h = (record { nonempty = omega arith; solid = s }, h)

abbrev Split : Bytes × List Bytes → Type 0
Split (token, tokens) = HasNoSpace token × All IsToken tokens

split_from-if :
    (b : ℕ) (bs : Bytes) (space : Bool)
    → is_space b ≡ space
    → Split (split_from bs)
    → Split (split_from (b ∷ bs))
unfolding split_from
split_from-if b bs true e h =
    rw e (tt, keep-IsToken (split_from bs).0 (split_from bs).1 (h.0) (h.1))
split_from-if b bs false e h = rw e ((e, h.0), h.1)

split_from-Split : (line : Bytes) → Split (split_from line)
unfolding split_from
split_from-Split [] = (tt, tt)
split_from-Split (b ∷ bs) = split_from-if b bs (is_space b) refl (split_from-Split bs)

pub split_whitespace_view-IsToken : (line : Bytes) → All IsToken (split_whitespace_view line)
unfolding split_whitespace_view
split_whitespace_view-IsToken line =
    keep-IsToken (split_from line).0 (split_from line).1 (split_from-Split line).0
      (split_from-Split line).1

-- A token at the front of a line.
pub split_from-append :
    (token rest : Bytes)
    → HasNoSpace token
    → split_from (token ++ rest) ≡ (token ++ (split_from rest).0, (split_from rest).1)
unfolding split_from
split_from-append [] rest h = refl
split_from-append (b ∷ bs) rest h =
    rw (h.0) (ap (λ (p : Bytes × List Bytes). (b ∷ p.0, p.1)) (split_from-append bs rest (h.1)))

pub keep-token :
    (token : Bytes) (tokens : List Bytes) → 0 < length token → keep token tokens ≡ token ∷ tokens
keep-token [] tokens h = absurd (omega arith)
keep-token (b ∷ bs) tokens h = refl

split_from-space : (line : Bytes) → split_from (32 ∷ line) ≡ ([], split_whitespace_view line)
unfolding split_from split_whitespace_view is_space
split_from-space line = refl

split_last : (token : Bytes) → HasNoSpace token → split_from token ≡ (token, [])
unfolding split_from
split_last token h =
    ap split_from (sym (append-nil token))
    ∙ split_from-append token [] h
    ∙ ap (λ (t : Bytes). (t, [])) (append-nil token)

split_first :
    (token line : Bytes)
    → HasNoSpace token
    → split_from (token ++ 32 ∷ line) ≡ (token, split_whitespace_view line)
split_first token line h =
    split_from-append token (32 ∷ line) h
    ∙ ap (λ (p : Bytes × List Bytes). (token ++ p.0, p.1)) (split_from-space line)
    ∙ ap (λ (t : Bytes). (t, split_whitespace_view line)) (append-nil token)

pub split_keep :
    (line token : Bytes) (tokens : List Bytes)
    → split_from line ≡ (token, tokens)
    → split_whitespace_view line ≡ keep token tokens
unfolding split_whitespace_view
split_keep line token tokens e = ap (λ (p : Bytes × List Bytes). keep p.0 p.1) e

-- Splitting the line that joins any list of tokens, each nonempty and without a space, by single spaces
-- gives the tokens back.
pub split_whitespace_view-join_tokens :
    (tokens : List Bytes) → All IsToken tokens → split_whitespace_view (join_tokens tokens) ≡ tokens
unfolding join_tokens
split_whitespace_view-join_tokens [] h = unfold split_whitespace_view in unfold split_from in refl
split_whitespace_view-join_tokens (token ∷ []) h =
    split_keep token token [] (split_last token h.0.solid) ∙ keep-token token [] h.0.nonempty
split_whitespace_view-join_tokens (token ∷ next ∷ tokens) h =
    split_keep (token ++ 32 ∷ join_tokens (next ∷ tokens)) token
      (split_whitespace_view (join_tokens (next ∷ tokens)))
      (split_first token (join_tokens (next ∷ tokens)) h.0.solid)
    ∙ keep-token token (split_whitespace_view (join_tokens (next ∷ tokens))) h.0.nonempty
    ∙ ap (λ (l : List Bytes). token ∷ l) (split_whitespace_view-join_tokens (next ∷ tokens) (h.1))
