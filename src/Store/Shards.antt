-- ===== src/Store/Shards.antt =====
-- The shards of a store: what is true of them, and that changes under one key keep it.
use concurrent_kv_store.Base.{
  sym, bytes_discrete, arith, zero, suc, ap, ◌∙◌, ◌∷◌, length, [], Bytes, List, ℕ, ◌≡◌, ◌≢◌, none,
  some, All, ℕ_discrete,
}
use concurrent_kv_store.Maps.{Map, find, insert_all, IsMap}
use concurrent_kv_store.Maps.Distinct.{insert_all-IsMap, insert_all-All}
use concurrent_kv_store.Maps.Laws.{find-insert_all, or_else, or_else-none}
use concurrent_kv_store.Store.Data.{
  shard_at, change_shard, clear_shards, collect_shards, distribute, replace_data, shard_index,
}
use concurrent_kv_store.Store.Lookup.{
  IsSharded, shard_at-change_shard, shard_at-change_shard_other, length-change_shard,
  shard_at-clear_shards, length-clear_shards, shard_index-lt,
}
use concurrent_kv_store.Store.State.{Store, shard_count}
use mathlib.Core.Logic.{if_neg, by_cases}
use mathlib.Core.Path.{subst}

-- As many shards as there should be, each key in its own shard only, and once in it.
pub record IsShards (hash : Bytes → ℕ) (shards : List Map) : Type 0 where
  pub count : length shards ≡ shard_count
  pub sharded : IsSharded hash shards
  pub distinct : All IsMap shards

abbrev pub IsStore : (Bytes → ℕ) → Store → Type 0
IsStore hash st = IsShards hash st.shards

pub shard_at-All :
    (P : Map → Type 0) (i : ℕ) (shards : List Map) → P [] → All P shards → P (shard_at i shards)
unfolding shard_at
shard_at-All P i [] e h = e
shard_at-All P zero (m ∷ ms) e h = h.0
shard_at-All P (suc i) (m ∷ ms) e h = shard_at-All P i ms e (h.1)

pub change_shard-All :
    (P : Map → Type 0) (i : ℕ) (f : Map → Map) (shards : List Map)
    → ((m : Map) → P m → P (f m))
    → All P shards
    → All P (change_shard i f shards)
unfolding change_shard
change_shard-All P i f [] g h = tt
change_shard-All P zero f (m ∷ ms) g h = (g m (h.0), h.1)
change_shard-All P (suc i) f (m ∷ ms) g h = (h.0, change_shard-All P i f ms g (h.1))

pub clear_shards-All : (P : Map → Type 0) (shards : List Map) → P [] → All P (clear_shards shards)
unfolding clear_shards
clear_shards-All P [] e = tt
clear_shards-All P (m ∷ ms) e = (e, clear_shards-All P ms e)

pub collect_shards-IsMap :
    (result : Map) (shards : List Map) → IsMap result → IsMap (collect_shards result shards)
unfolding collect_shards
collect_shards-IsMap result [] h = h
collect_shards-IsMap result (m ∷ ms) h =
    collect_shards-IsMap (insert_all result m) ms (insert_all-IsMap result m h)

pub collect_shards-All :
    (P : Bytes × Bytes → Type 0) (result : Map) (shards : List Map)
    → All P result
    → All (All P) shards
    → All P (collect_shards result shards)
unfolding collect_shards
collect_shards-All P result [] h g = h
collect_shards-All P result (m ∷ ms) h g =
    collect_shards-All P (insert_all result m) ms (insert_all-All P result m h (g.0)) (g.1)

-- A change of a map that other keys do not notice.
abbrev pub OnlyAt : Bytes → (Map → Map) → Type 0
OnlyAt key f = (m : Map) (k : Bytes) → key ≢ k → find k (f m) ≡ find k m

pub insert-OnlyAt : (key value : Bytes) → OnlyAt key (λ m. insert_all m ((key, value) ∷ []))
unfolding find
insert-OnlyAt key value m k ne =
    find-insert_all k m ((key, value) ∷ [])
    ∙ ap (or_else (find k m)) (if_neg (bytes_discrete key k) ne (some value) none)
    ∙ or_else-none (find k m)

module _ (hash : Bytes → ℕ) where
  change_shard-IsSharded :
      (key : Bytes) (f : Map → Map) (shards : List Map)
      → OnlyAt key f
      → length shards ≡ shard_count
      → IsSharded hash shards
      → IsSharded hash (change_shard (shard_index hash key) f shards)
  change_shard-IsSharded key f shards only size h k i np =
      let j = shard_index hash key in
      by_cases (ℕ_discrete j i)
        (λ p.
          ap (find k) (
            subst (λ (n : ℕ). shard_at n (change_shard j f shards) ≡ f (shard_at n shards)) p
              (shard_at-change_shard j f shards (omega (arith, size, shard_index-lt hash key))))
          ∙ only (shard_at i shards) k (λ e. np (sym p ∙ ap (shard_index hash) e))
          ∙ h k i np)
        (λ other. ap (find k) (shard_at-change_shard_other j i f shards other) ∙ h k i np)

  pub change_shard-IsShards :
      (key : Bytes) (f : Map → Map) (shards : List Map)
      → OnlyAt key f
      → ((m : Map) → IsMap m → IsMap (f m))
      → IsShards hash shards
      → IsShards hash (change_shard (shard_index hash key) f shards)
  change_shard-IsShards key f shards only keeps h = record {
    count = length-change_shard (shard_index hash key) f shards ∙ h.count;
    sharded = change_shard-IsSharded key f shards only h.count h.sharded;
    distinct = change_shard-All IsMap (shard_index hash key) f shards keeps h.distinct;
  }

  distribute-IsShards :
      (entries : Map) (shards : List Map)
      → IsShards hash shards
      → IsShards hash (distribute hash entries shards)
  unfolding distribute
  distribute-IsShards [] shards h = h
  distribute-IsShards ((key, value) ∷ entries) shards h = distribute-IsShards entries _ (
      change_shard-IsShards key (λ m. insert_all m ((key, value) ∷ [])) shards
        (insert-OnlyAt key value) (λ m d. insert_all-IsMap m ((key, value) ∷ []) d) h)

  distribute-All :
      (P : Bytes × Bytes → Type 0) (entries : Map) (shards : List Map)
      → All P entries
      → All (All P) shards
      → All (All P) (distribute hash entries shards)
  unfolding distribute
  distribute-All P [] shards g h = h
  distribute-All P ((key, value) ∷ entries) shards g h = distribute-All P entries _ (g.1) (
      change_shard-All (All P) (shard_index hash key) (λ m. insert_all m ((key, value) ∷ [])) shards
        (λ m d. insert_all-All P m ((key, value) ∷ []) d (g.0, tt)) h)

  pub replace_data-IsStore :
      (entries : Map) (st : Store)
      → length st.shards ≡ shard_count
      → IsStore hash (replace_data hash entries st)
  unfolding replace_data find
  replace_data-IsStore entries st size =
      distribute-IsShards entries (clear_shards st.shards) (record {
        count = length-clear_shards st.shards ∙ size;
        sharded = λ k i np. ap (find k) (shard_at-clear_shards i st.shards);
        distinct = clear_shards-All IsMap st.shards tt;
      })

  pub replace_data-All :
      (P : Bytes × Bytes → Type 0) (entries : Map) (st : Store)
      → All P entries
      → All (All P) (replace_data hash entries st).shards
  unfolding replace_data
  replace_data-All P entries st g =
      distribute-All P entries (clear_shards st.shards) g (clear_shards-All (All P) st.shards tt)
