-- ===== src/Cli/Words.antt =====
-- The words that end the command loop, in letters of either case.
use concurrent_kv_store.Base.{
  ℕ, ◌≡◌, ◌≢◌, ◌⊎◌, ◌≤◌, ◌∷◌, [], inl, inr, Bytes, List, true, false, All, arith, refl, ap, ◌+◌,
  bytes_discrete, Bool, if◌then◌else◌,
}
use concurrent_kv_store.Cli.Parser
use concurrent_kv_store.Cli.Parser.{
  Command, CommandType, Message, parse_tokens, parse_verb, parse_set, parse_key, parse_bare,
  parse_clear, make_invalid_command, command, is_word,
}
use concurrent_kv_store.Cli.Text.{to_upper, upper}
use mathlib.Core.Logic.{if_neg}

-- A token that is a word of capital letters but for the case of its letters.
abbrev pub Spells : Bytes → Bytes → Type 0
Spells [] [] = Unit {0}
Spells (a ∷ xs) (b ∷ bs) = ((a ≡ b) ⊎ (a ≡ b + 32)) × Spells xs bs
Spells [] (b ∷ bs) = ⊥
Spells (a ∷ xs) [] = ⊥

abbrev pub exit_word : Bytes
exit_word = b'E' ∷ b'X' ∷ b'I' ∷ b'T' ∷ []

abbrev pub quit_word : Bytes
quit_word = b'Q' ∷ b'U' ∷ b'I' ∷ b'T' ∷ []

-- The first token is EXIT or QUIT.
abbrev pub SaysExit : List Bytes → Type 0
SaysExit [] = ⊥
SaysExit (verb ∷ args) = Spells verb exit_word ⊎ Spells verb quit_word

abbrev pub Capital : ℕ → Type 0
Capital b = (65 ≤ b) × (b ≤ 90)

upper-Capital : (a b : ℕ) → Capital b → (a ≡ b) ⊎ (a ≡ b + 32) → upper a ≡ b
unfolding upper
upper-Capital a b c h = ground arith

Capital-upper : (a b : ℕ) → Capital b → upper a ≡ b → (a ≡ b) ⊎ (a ≡ b + 32)
unfolding upper
Capital-upper a b c h = ground arith

pub Spells-to_upper :
    (token word : Bytes) → All Capital word → Spells token word → to_upper token ≡ word
unfolding to_upper
Spells-to_upper [] [] c h = refl
Spells-to_upper (a ∷ xs) (b ∷ bs) c h =
    rw (upper-Capital a b (c.0) (h.0))
      (ap (λ (l : Bytes). b ∷ l) (Spells-to_upper xs bs (c.1) (h.1)))
Spells-to_upper [] (b ∷ bs) c h = absurd h
Spells-to_upper (a ∷ xs) [] c h = absurd h

to_upper-Spells :
    (token word : Bytes) → All Capital word → to_upper token ≡ word → Spells token word
unfolding to_upper
to_upper-Spells [] [] c h = tt
to_upper-Spells (a ∷ xs) (b ∷ bs) c h =
    let first : upper a ≡ b = cc in
    let later : to_upper xs ≡ bs = cc in
    (Capital-upper a b (c.0) first, to_upper-Spells xs bs (c.1) later)
to_upper-Spells [] (b ∷ bs) c h = cc
to_upper-Spells (a ∷ xs) [] c h = cc

abbrev NotExit : Command → Type 0
NotExit c = c.type ≢ Parser.CommandType.exit

invalid-NotExit : (usage : Message) → NotExit (make_invalid_command usage)
unfolding make_invalid_command
invalid-NotExit usage = λ e. cc

command-NotExit :
    (type : CommandType) (key text : Bytes)
    → type ≢ Parser.CommandType.exit
    → NotExit (command type key text)
unfolding command
command-NotExit type key text h = h

parse_set-NotExit : (args : List Bytes) → NotExit (parse_set args)
unfolding parse_set command make_invalid_command
parse_set-NotExit [] = λ e. cc
parse_set-NotExit (key ∷ []) = λ e. cc
parse_set-NotExit (key ∷ value ∷ values) = λ e. cc

parse_key-NotExit :
    (type : CommandType) (usage : Message) (args : List Bytes)
    → type ≢ Parser.CommandType.exit
    → NotExit (parse_key type usage args)
unfolding parse_key command make_invalid_command
parse_key-NotExit type usage [] h = λ e. cc
parse_key-NotExit type usage (key ∷ []) h = h
parse_key-NotExit type usage (key ∷ next ∷ args) h = λ e. cc

parse_bare-NotExit :
    (type : CommandType) (usage : Message) (args : List Bytes)
    → type ≢ Parser.CommandType.exit
    → NotExit (parse_bare type usage args)
unfolding parse_bare command make_invalid_command
parse_bare-NotExit type usage [] h = h
parse_bare-NotExit type usage (word ∷ args) h = λ e. cc

either : (test : Bool) (a b : Command) → NotExit a → NotExit b → NotExit (if test then a else b)
either true a b h k = h
either false a b h k = k

parse_clear-NotExit : (args : List Bytes) → NotExit (parse_clear args)
unfolding parse_clear
parse_clear-NotExit [] = invalid-NotExit _
parse_clear-NotExit (word ∷ []) =
    either _ _ _ (command-NotExit Parser.CommandType.clear_persistence _ _ (λ e. cc))
      (invalid-NotExit _)
parse_clear-NotExit (word ∷ next ∷ args) = invalid-NotExit _

is_word-false : (a b : Bytes) → a ≢ b → is_word a b ≡ false
unfolding is_word
is_word-false a b h = if_neg (bytes_discrete a b) h true false

parse_verb-NotExit :
    (verb : Bytes) (args : List Bytes)
    → verb ≢ exit_word
    → verb ≢ quit_word
    → NotExit (parse_verb verb args)
unfolding parse_verb
parse_verb-NotExit verb args not_exit not_quit =
    rw (is_word-false verb exit_word not_exit, is_word-false verb quit_word not_quit)
      (either _ _ _ (parse_set-NotExit args) (
        either _ _ _ (parse_key-NotExit Parser.CommandType.get _ args (λ e. cc)) (
          either _ _ _ (parse_key-NotExit Parser.CommandType.del _ args (λ e. cc)) (
            either _ _ _ (parse_bare-NotExit Parser.CommandType.clear_persistence _ args (λ e. cc))
              (either _ _ _ (parse_clear-NotExit args) (
                either _ _ _
                  (parse_bare-NotExit Parser.CommandType.compact_persistence _ args (λ e. cc))
                  (either _ _ _ (parse_bare-NotExit Parser.CommandType.info _ args (λ e. cc)) (
                    either _ _ _ (command-NotExit Parser.CommandType.help _ _ (λ e. cc))
                      (invalid-NotExit _)))))))))

pub parse_tokens-NotExit :
    (tokens : List Bytes) → ¬ SaysExit tokens → (parse_tokens tokens).type ≢ Parser.CommandType.exit
unfolding parse_tokens make_invalid_command
parse_tokens-NotExit [] h = λ e. cc
parse_tokens-NotExit (verb ∷ args) h =
    parse_verb-NotExit (to_upper verb) args
      (λ e. h (inl (to_upper-Spells verb exit_word (omega arith) e)))
      (λ e. h (inr (to_upper-Spells verb quit_word (omega arith) e)))

pub parse_tokens-exit :
    (tokens : List Bytes)
    → SaysExit tokens
    → parse_tokens tokens ≡ command Parser.CommandType.exit [] []
unfolding parse_tokens parse_verb is_word bytes_discrete
parse_tokens-exit [] h = absurd h
parse_tokens-exit (verb ∷ args) (inl h) = rw (Spells-to_upper verb exit_word (omega arith) h) refl
parse_tokens-exit (verb ∷ args) (inr h) = rw (Spells-to_upper verb quit_word (omega arith) h) refl
