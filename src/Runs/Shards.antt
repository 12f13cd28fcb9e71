-- ===== src/Runs/Shards.antt =====
-- A store with one entry, under a hash that adds up the bytes.
use concurrent_kv_store.Base.{
  returned, ◌⊎◌, arith, ◌+◌, ℕ, true, ◌≢◌, false, ◌≡◌, Bytes, ok, refl, some, none, ◌∷◌, [],
}
use concurrent_kv_store.BinaryIo.{little}
use concurrent_kv_store.Maps.{Map, find}
use concurrent_kv_store.Snapshot.RoundTrip.{snapshot_bytes}
use concurrent_kv_store.Store.Data.{delete, get, set, collect_data}
use concurrent_kv_store.Store.Effects.{set-get, set-IsStore, load_snapshot-get, find-collect_data}
use concurrent_kv_store.Store.Deletes.{delete-get, Deleted}
use concurrent_kv_store.Store.Persistence.{load_snapshot}
use concurrent_kv_store.Store.Shards.{IsStore}
use concurrent_kv_store.Store.Objects.{new_store}
use concurrent_kv_store.Store.Fresh.{new_store-IsStore}
use concurrent_kv_store.Store.State.{Store}
use concurrent_kv_store.Wal.State.{calm}

abbrev pub byte_sum : Bytes → ℕ
byte_sum [] = 0
byte_sum (b ∷ bs) = b + byte_sum bs

abbrev pub no_entries : Store
no_entries = new_store none none

pub no_entries-IsStore : IsStore byte_sum no_entries
no_entries-IsStore = new_store-IsStore byte_sum none none

-- The store behind a SET.
abbrev pub with_color : Store
with_color = (set byte_sum calm (99 ∷ []) (114 ∷ []) no_entries).1

set-get_example :
    let p = set byte_sum calm (99 ∷ []) (114 ∷ []) no_entries in
    (p.0 ≡ ok tt
      → (get byte_sum (99 ∷ []) p.1 ≡ some (114 ∷ []))
        × ((other : Bytes)
            → (99 ∷ []) ≢ other
            → get byte_sum other p.1 ≡ get byte_sum other no_entries))
    × (p.0 ≢ ok tt → (other : Bytes) → get byte_sum other p.1 ≡ get byte_sum other no_entries)
unfolding new_store
set-get_example = set-get byte_sum calm (99 ∷ []) (114 ∷ []) no_entries refl

set-IsStore_example : IsStore byte_sum with_color
set-IsStore_example = set-IsStore byte_sum calm (99 ∷ []) (114 ∷ []) no_entries no_entries-IsStore

pub with_color-IsStore : IsStore byte_sum with_color
with_color-IsStore = set-IsStore byte_sum calm (99 ∷ []) (114 ∷ []) no_entries no_entries-IsStore

find-collect_data_example :
    find (99 ∷ []) (collect_data with_color) ≡ get byte_sum (99 ∷ []) with_color
find-collect_data_example =
    find-collect_data byte_sum (99 ∷ []) with_color with_color-IsStore.sharded

abbrev colors : Map
colors = (99 ∷ [], 114 ∷ 101 ∷ 100 ∷ []) ∷ []

load_snapshot-get_example :
    let p =
      load_snapshot byte_sum little
        (record { committed = some (snapshot_bytes little colors 24); temp = none })
        no_entries in
    (p.0 ≡ ok (record { loaded = true; entry_count = 1; wal_offset = 24 }))
    × ((key : Bytes) → get byte_sum key p.1 ≡ find key colors)
unfolding find new_store
load_snapshot-get_example =
    load_snapshot-get byte_sum little colors 24
      (record { committed = some (snapshot_bytes little colors 24); temp = none }) no_entries
      (refl, tt) ((omega arith, omega arith), tt) (omega arith) (omega arith) refl refl

delete-get_example :
    let p = delete byte_sum calm (99 ∷ []) with_color in
    IsStore byte_sum p.1
    × (Deleted byte_sum (99 ∷ []) with_color p
        ⊎ ((returned p.0 ≡ false)
            × ((other : Bytes) → get byte_sum other p.1 ≡ get byte_sum other with_color)))
delete-get_example = delete-get byte_sum calm (99 ∷ []) with_color with_color-IsStore
