-- ===== src/Store/Fresh.antt =====
-- A store that was just constructed.
use concurrent_kv_store.Base.{ℕ, zero, suc, ◌≡◌, refl, All, Bytes, replicate, none, Option, []}
use concurrent_kv_store.Maps.{Map, find, IsMap}
use concurrent_kv_store.Snapshot.Types.{Files}
use concurrent_kv_store.Store.Data.{get, shard_at, shard_index}
use concurrent_kv_store.Store.Objects.{new_store}
use concurrent_kv_store.Store.Shards.{IsStore}
use concurrent_kv_store.Wal.State.{Wal}

nothing_found : (key : Bytes) (n i : ℕ) → find key (shard_at i (replicate n [])) ≡ none
unfolding find shard_at
nothing_found key zero i = refl
nothing_found key (suc n) zero = refl
nothing_found key (suc n) (suc i) = nothing_found key n i

-- As many maps with a property as one likes.
all_empty : (P : Map → Type 0) (n : ℕ) → P [] → All P (replicate n [])
all_empty P zero h = tt
all_empty P (suc n) h = (h, all_empty P n h)

module _ (hash : Bytes → ℕ) (wal : Option Wal) (snapshot : Option Files) where
  pub new_store-IsStore : IsStore hash (new_store wal snapshot)
  unfolding new_store
  new_store-IsStore = record {
    count = refl;
    sharded = λ key i np. nothing_found key 64 i;
    distinct = all_empty IsMap 64 tt;
  }

  pub new_store-All : (P : Map → Type 0) → P [] → All P (new_store wal snapshot).shards
  unfolding new_store
  new_store-All P h = all_empty P 64 h

  pub new_store-get : (key : Bytes) → get hash key (new_store wal snapshot) ≡ none
  unfolding get new_store
  new_store-get key = nothing_found key 64 (shard_index hash key)
