-- ===== src/Store/Lookup.antt =====
-- `Get` behind changes of the shards.
use concurrent_kv_store.Base.{
  sym, ◌∙◌, ℕ_discrete, bytes_discrete, zero, ap, suc, arith, ◌∷◌, ◌<◌, [], Option, length, List,
  Bytes, ℕ, refl, ◌≡◌, ◌≢◌, none, some,
}
use concurrent_kv_store.Maps.{Map, find, assign, insert_all}
use mathlib.Core.Path.{subst}
use mathlib.Core.Logic.{by_cases, if_neg}
use concurrent_kv_store.Maps.Laws.{
  or_else_assoc, find-append, find-assign, find-assign_other, find-insert_all, or_else,
  or_else-none,
}
use concurrent_kv_store.Store.Data.{
  shard_at, change_shard, clear_shards, distribute, replace_data, shard_index, get, put,
}
use concurrent_kv_store.Store.State.{Store, shard_count}

pub shard_at-change_shard :
    (i : ℕ) (f : Map → Map) (shards : List Map)
    → i < length shards
    → shard_at i (change_shard i f shards) ≡ f (shard_at i shards)
unfolding shard_at change_shard
shard_at-change_shard i f [] h = absurd (omega arith)
shard_at-change_shard zero f (m ∷ ms) h = refl
shard_at-change_shard (suc i) f (m ∷ ms) h = shard_at-change_shard i f ms (omega arith)

pub shard_at-change_shard_other :
    (i j : ℕ) (f : Map → Map) (shards : List Map)
    → i ≢ j
    → shard_at j (change_shard i f shards) ≡ shard_at j shards
unfolding shard_at change_shard
shard_at-change_shard_other i j f [] h = refl
shard_at-change_shard_other zero zero f (m ∷ ms) h = absurd (h refl)
shard_at-change_shard_other zero (suc j) f (m ∷ ms) h = refl
shard_at-change_shard_other (suc i) zero f (m ∷ ms) h = refl
shard_at-change_shard_other (suc i) (suc j) f (m ∷ ms) h =
    shard_at-change_shard_other i j f ms (λ e. h (ap suc e))

pub length-change_shard :
    (i : ℕ) (f : Map → Map) (shards : List Map) → length (change_shard i f shards) ≡ length shards
unfolding change_shard
length-change_shard i f [] = refl
length-change_shard zero f (m ∷ ms) = refl
length-change_shard (suc i) f (m ∷ ms) = ap suc (length-change_shard i f ms)

pub shard_at-clear_shards : (i : ℕ) (shards : List Map) → shard_at i (clear_shards shards) ≡ []
unfolding shard_at clear_shards
shard_at-clear_shards i [] = refl
shard_at-clear_shards zero (m ∷ ms) = refl
shard_at-clear_shards (suc i) (m ∷ ms) = shard_at-clear_shards i ms

pub length-clear_shards : (shards : List Map) → length (clear_shards shards) ≡ length shards
unfolding clear_shards
length-clear_shards [] = refl
length-clear_shards (m ∷ ms) = ap suc (length-clear_shards ms)

find-nil : (k : Bytes) → find k [] ≡ none
unfolding find
find-nil k = refl

module _ (hash : Bytes → ℕ) where
  pub shard_index-lt : (key : Bytes) → shard_index hash key < shard_count
  unfolding shard_index
  shard_index-lt key = omega arith

  -- A change of one shard, as a look-up of any key sees it.
  look : Bytes → List Map → Option Bytes
  look key shards = find key (shard_at (shard_index hash key) shards)

  -- Inserting an entry that is not there adds its key and nothing else.
  look-insert :
      (k key value : Bytes) (shards : List Map)
      → length shards ≡ shard_count
      → look k (change_shard (shard_index hash key) (λ m. insert_all m ((key, value) ∷ [])) shards)
        ≡ or_else (look k shards) (find k ((key, value) ∷ []))
  unfolding look find
  look-insert k key value shards size =
      let i = shard_index hash key in
      let j = shard_index hash k in
      let f : Map → Map = λ m. insert_all m ((key, value) ∷ []) in
      by_cases (ℕ_discrete i j)
        (λ p.
          ap (find k) (
            subst (λ (n : ℕ). shard_at n (change_shard i f shards) ≡ f (shard_at n shards)) p
              (shard_at-change_shard i f shards (omega (arith, size, shard_index-lt key))))
          ∙ find-insert_all k (shard_at j shards) ((key, value) ∷ []))
        (λ np.
          ap (find k) (shard_at-change_shard_other i j f shards np)
          ∙ sym (or_else-none (look k shards))
          ∙ ap (or_else (look k shards)) (
              sym (
                if_neg (bytes_discrete key k) (λ e. np (ap (shard_index hash) e)) (some value)
                  none)))

  -- `ReplaceDataLocked` behind the clearing: what was there wins.
  look-distribute :
      (k : Bytes) (entries : Map) (shards : List Map)
      → length shards ≡ shard_count
      → look k (distribute hash entries shards) ≡ or_else (look k shards) (find k entries)
  unfolding distribute find
  look-distribute k [] shards size = sym (or_else-none (look k shards))
  look-distribute k ((key, value) ∷ entries) shards size =
      let f : Map → Map = λ m. insert_all m ((key, value) ∷ []) in
      look-distribute k entries (change_shard (shard_index hash key) f shards)
        (length-change_shard (shard_index hash key) f shards ∙ size)
      ∙ ap (λ (o : Option Bytes). or_else o (find k entries)) (look-insert k key value shards size)
      ∙ or_else_assoc (look k shards) (find k ((key, value) ∷ [])) (find k entries)
      ∙ ap (or_else (look k shards)) (sym (find-append k ((key, value) ∷ []) entries))

  -- Behind a replacement of the data by any map, `Get` finds each key as the map does.
  pub get-replace_data :
      (k : Bytes) (entries : Map) (st : Store)
      → length st.shards ≡ shard_count
      → get hash k (replace_data hash entries st) ≡ find k entries
  unfolding get replace_data look
  get-replace_data k entries st size =
      look-distribute k entries (clear_shards st.shards) (length-clear_shards st.shards ∙ size)
      ∙ ap (λ (o : Option Bytes). or_else o (find k entries))
          (ap (find k) (shard_at-clear_shards (shard_index hash k) st.shards) ∙ find-nil k)

  pub get-put :
      (key value : Bytes) (st : Store)
      → length st.shards ≡ shard_count
      → get hash key (put hash key value st) ≡ some value
  unfolding get put
  get-put key value st size =
      ap (find key) (
        shard_at-change_shard (shard_index hash key) (assign key value) st.shards
          (omega (arith, size, shard_index-lt key)))
      ∙ find-assign key value (shard_at (shard_index hash key) st.shards)

  pub get-put_other :
      (key value other : Bytes) (st : Store)
      → length st.shards ≡ shard_count
      → key ≢ other
      → get hash other (put hash key value st) ≡ get hash other st
  unfolding get put
  get-put_other key value other st size h =
      let i = shard_index hash key in
      let j = shard_index hash other in
      by_cases (ℕ_discrete i j)
        (λ p.
          ap (find other) (
            subst
              (λ (n : ℕ).
                shard_at n (change_shard i (assign key value) st.shards)
                ≡ assign key value (shard_at n st.shards))
              p
              (shard_at-change_shard i (assign key value) st.shards
                (omega (arith, size, shard_index-lt key))))
          ∙ find-assign_other key value other (shard_at j st.shards) h)
        (λ np. ap (find other) (shard_at-change_shard_other i j (assign key value) st.shards np))

  -- Each key stands in its own shard only.
  abbrev pub IsSharded : List Map → Type 0
  IsSharded shards =
      (key : Bytes) (i : ℕ) → i ≢ shard_index hash key → find key (shard_at i shards) ≡ none
