-- ===== src/Store/Deletes.antt =====
-- `Delete`, as `Get` sees it.
use concurrent_kv_store.Store.Effects.{get-shards, remove-IsStore}
use concurrent_kv_store.Store.Effects.{remove-IsStore}
use concurrent_kv_store.Base.{
  refl, ltb, some, true, Bool, Result, [], ◌∷◌, returned, false, ℕ_discrete, bytes_discrete, ite,
  ◌⊎◌, inl, inr, ◌∙◌, sym, ap, ℕ, arith, Bytes, ◌≡◌, none, ok,
}
use mathlib.Core.Path.{subst}
use mathlib.Core.Logic.{by_cases, if_pos, if_neg}
use concurrent_kv_store.Maps.{find, IsMap}
use concurrent_kv_store.Maps.Laws.{find-erase}
use concurrent_kv_store.Store.Data.{
  change_shard, contains, delete, erases, shard_index, shard_at, get, count_write,
  check_checkpoint_error, schedule_checkpoint,
}
use concurrent_kv_store.Store.Lookup.{
  shard_at-change_shard_other, shard_index-lt, shard_at-change_shard,
}
use concurrent_kv_store.Store.Shards.{shard_at-All, IsShards, IsStore}
use concurrent_kv_store.Maps.{erase, erase_count, Map}
use mathlib.Core.Option.{some-ne-none}
use concurrent_kv_store.Maps.Laws.{find-erase_other}
use concurrent_kv_store.Store.Data.{remove}
use concurrent_kv_store.Store.State.{Store}
use concurrent_kv_store.Wal.State.{Io}

pub get-remove :
    (hash : Bytes → ℕ) (key other : Bytes) (st : Store)
    → IsStore hash st
    → get hash other (remove hash key st) ≡ ite (bytes_discrete key other) none (get hash other st)
unfolding get remove
get-remove hash key other st h =
    let i = shard_index hash key in
    let j = shard_index hash other in
    let here : shard_at i (change_shard i (erase key) st.shards)
        ≡ erase key (shard_at i st.shards) =
      shard_at-change_shard i (erase key) st.shards
        (omega (arith, h.count, shard_index-lt hash key)) in
    by_cases (bytes_discrete key other)
      (λ e.
        subst
          (λ (x : Bytes).
            find x (shard_at (shard_index hash x) (change_shard i (erase key) st.shards)) ≡ none)
          e
          (ap (find key) here
            ∙ find-erase key (shard_at i st.shards) (shard_at-All IsMap i st.shards tt h.distinct))
        ∙ sym (if_pos (bytes_discrete key other) e none (find other (shard_at j st.shards))))
      (λ ne.
        by_cases (ℕ_discrete i j)
          (λ p.
            ap (find other) (
              subst
                (λ (n : ℕ).
                  shard_at n (change_shard i (erase key) st.shards)
                  ≡ erase key (shard_at n st.shards))
                p here)
            ∙ find-erase_other key other (shard_at j st.shards) ne)
          (λ np. ap (find other) (shard_at-change_shard_other i j (erase key) st.shards np))
        ∙ sym (if_neg (bytes_discrete key other) ne none (find other (shard_at j st.shards))))

abbrev Counted : Bytes → Map → Type 0
Counted key m =
    ((find key m ≡ none) × (ltb 0 (erase_count key m) ≡ false))
    ⊎ ((v : Bytes) × (find key m ≡ some v) × (ltb 0 (erase_count key m) ≡ true))

erase_count-Counted : (key : Bytes) (m : Map) → Counted key m
unfolding find erase_count
erase_count-Counted key [] = inl (refl, refl)
erase_count-Counted key ((k, v) ∷ m) =
    by_cases (bytes_discrete k key)
      (λ p. inr (
        v,
        if_pos (bytes_discrete k key) p (some v) (find key m),
        ap (ltb 0) (if_pos (bytes_discrete k key) p 1 (erase_count key m)),
      ))
      (λ np.
        let found = if_neg (bytes_discrete k key) np (some v) (find key m) in
        let counted = ap (ltb 0) (if_neg (bytes_discrete k key) np 1 (erase_count key m)) in
        elim (erase_count-Counted key m) [
          | inl (e, c) ↦ inl (found ∙ e, counted ∙ c)
          | inr (w, e, c) ↦ inr (w, found ∙ e, counted ∙ c)
        ])

delete-shards :
    (hash : Bytes → ℕ) (io : Io) (key : Bytes) (st : Store)
    → let p = delete hash io key st in
      ((p.0 ≡ ok (erases hash key st)) × (p.1.shards ≡ (remove hash key st).shards))
      ⊎ ((returned p.0 ≡ false) × (p.1.shards ≡ st.shards))
unfolding delete remove erases check_checkpoint_error count_write schedule_checkpoint
delete-shards hash io key st = ground arith

-- `Contains` sees what `Get` sees.
contains-none :
    (hash : Bytes → ℕ) (key : Bytes) (st : Store)
    → get hash key st ≡ none
    → contains hash key st ≡ false
unfolding get contains
contains-none hash key st e = ground (arith, e)

contains-some :
    (hash : Bytes → ℕ) (key value : Bytes) (st : Store)
    → get hash key st ≡ some value
    → contains hash key st ≡ true
unfolding get contains
contains-some hash key value st e = ground (arith, e)

-- A call that returned, with the answer that the state before it asks for.
pub record Deleted (hash : Bytes → ℕ) (key : Bytes) (st : Store) (p : Result Bool × Store)
    : Type 0 where
  pub absent : get hash key st ≡ none → (p.0 ≡ ok false) × (contains hash key st ≡ false)
  pub present :
      (value : Bytes)
      → get hash key st ≡ some value
      → (p.0 ≡ ok true) × (contains hash key st ≡ true)
  pub gone : contains hash key p.1 ≡ false
  pub others :
      (other : Bytes) → get hash other p.1 ≡ ite (bytes_discrete key other) none (get hash other st)

returned-Deleted :
    (hash : Bytes → ℕ) (io : Io) (key : Bytes) (st : Store)
    → IsStore hash st
    → let p = delete hash io key st in
      p.0 ≡ ok (erases hash key st)
      → p.1.shards ≡ (remove hash key st).shards
      → Deleted hash key st p
unfolding erases get
returned-Deleted hash io key st h done e =
    let p = delete hash io key st in
    let others : (other : Bytes)
        → get hash other p.1 ≡ ite (bytes_discrete key other) none (get hash other st) =
      λ other. get-shards hash other p.1 (remove hash key st) e ∙ get-remove hash key other st h in
    let counted = erase_count-Counted key (shard_at (shard_index hash key) st.shards) in
    record {
      absent = λ lost. elim counted [
        | inl (_, c) ↦ (done ∙ ap ok c, contains-none hash key st lost)
        | inr (w, found, _) ↦ absurd (some-ne-none w (sym found ∙ lost))
      ];
      present = λ value found. elim counted [
        | inl (lost, _) ↦ absurd (some-ne-none value (sym found ∙ lost))
        | inr (_, _, c) ↦ (done ∙ ap ok c, contains-some hash key value st found)
      ];
      gone =
          contains-none hash key p.1
            (others key ∙ if_pos (bytes_discrete key key) refl none (get hash key st));
      others = others;
    }

-- In a store with all its shards, each key once and in its own shard only, under any hash and whatever
-- the system answers: a DELETE keeps that form. Either it returns, true where Get and Contains saw the
-- key before and false where they saw none, and then Contains sees its key no more, Get finds nothing
-- under it, and each other key has the value it had; or it does not return, and each key has the value
-- it had.
pub delete-get :
    (hash : Bytes → ℕ) (io : Io) (key : Bytes) (st : Store)
    → IsStore hash st
    → let p = delete hash io key st in
      IsStore hash p.1
      × (Deleted hash key st p
          ⊎ ((returned p.0 ≡ false) × ((other : Bytes) → get hash other p.1 ≡ get hash other st)))
delete-get hash io key st h =
    let p = delete hash io key st in
    elim (delete-shards hash io key st) [
      | inl (done, e) ↦ (
        subst (IsShards hash) (sym e) (remove-IsStore hash key st h),
        inl (returned-Deleted hash io key st h done e),
      )
      | inr (thrown, e) ↦
          (subst (IsShards hash) (sym e) h, inr (thrown, λ other. get-shards hash other p.1 st e))
    ]
