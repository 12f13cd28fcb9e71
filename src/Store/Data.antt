-- ===== src/Store/Data.antt =====
-- The data of the store: shards, `Get`, `Contains`, `Size`, `Clear`, `Set` and `Delete`.
use concurrent_kv_store.Base.{
  ltb, ℕ, zero, suc, ◌+◌, ◌%◌, Bool, true, false, Option, none, some, List, [], ◌∷◌, Bytes, length,
  ◌==◌, if◌then◌else◌, throws, ok,
}
use concurrent_kv_store.Maps.{Map, find, assign, erase, erase_count, insert_all}
use concurrent_kv_store.Store.State.{
  Store, shard_count, snapshot_interval, Exec, ◌>>◌, pure, modify, on_wal,
}
use concurrent_kv_store.Wal.Append.{append_set, append_delete}
use concurrent_kv_store.Wal.State.{Io}

-- `shards_[i]`; an index is always below the shard count.
unfoldable pub shard_at : ℕ → List Map → Map
shard_at i [] = []
shard_at zero (m ∷ ms) = m
shard_at (suc i) (m ∷ ms) = shard_at i ms

-- A change of `shards_[i].data`.
unfoldable pub change_shard : ℕ → (Map → Map) → List Map → List Map
change_shard i f [] = []
change_shard zero f (m ∷ ms) = f m ∷ ms
change_shard (suc i) f (m ∷ ms) = m ∷ change_shard i f ms

-- `for (auto& shard : shards_) shard.data.clear();`
unfoldable pub clear_shards : List Map → List Map
clear_shards [] = []
clear_shards (m ∷ ms) = [] ∷ clear_shards ms

-- `CollectDataLocked` from a result that holds some shards already.
unfoldable pub collect_shards : Map → List Map → Map
collect_shards result [] = result
collect_shards result (m ∷ ms) = collect_shards (insert_all result m) ms

unfoldable pub collect_data : Store → Map
collect_data st = collect_shards [] st.shards

-- `Size` from a partial sum.
unfoldable pub add_sizes : ℕ → List Map → ℕ
add_sizes n [] = n
add_sizes n (m ∷ ms) = add_sizes (n + length m) ms

unfoldable pub size : Store → ℕ
size st = add_sizes 0 st.shards

-- `Clear`
unfoldable pub clear : Store → Store
clear st = record st { shards = clear_shards st.shards; writes_since_snapshot = 0 }

-- `CheckCheckpointError`
unfoldable pub check_checkpoint_error : Exec (Unit {0})
check_checkpoint_error st = elim st.snapshot [
  | none ↦ (ok tt, st)
  | some _ ↦ elim st.checkpoint_error [ none ↦ (ok tt, st) | some e ↦ (throws e, st) ]
]

-- `ScheduleCheckpoint`
unfoldable pub schedule_checkpoint : Store → Store
schedule_checkpoint st = record st { checkpoint_requested = true }

-- The count of writes behind a SET or a DELETE, and the checkpoint that it makes due.
unfoldable pub count_write : Store → Store
count_write st = elim st.snapshot [
  | none ↦ st
  | some _ ↦
      let counted = record st { writes_since_snapshot = st.writes_since_snapshot + 1 } in
      if st.writes_since_snapshot + 1 == snapshot_interval
      then schedule_checkpoint counted
      else counted
]

module _ (hash : Bytes → ℕ) where
  -- `hash & (kShardCount - 1)`: the shard count is a power of two.
  unfoldable pub shard_index : Bytes → ℕ
  shard_index key = hash key % shard_count

  unfoldable pub get : Bytes → Store → Option Bytes
  get key st = find key (shard_at (shard_index key) st.shards)

  unfoldable pub contains : Bytes → Store → Bool
  contains key st = elim (find key (shard_at (shard_index key) st.shards)) [
    | none ↦ false
    | some _ ↦ true
  ]

  -- The entries of `ReplaceDataLocked`, each to its shard.
  unfoldable pub distribute : Map → List Map → List Map
  distribute [] shards = shards
  distribute ((key, value) ∷ entries) shards =
      distribute entries
        (change_shard (shard_index key) (λ m. insert_all m ((key, value) ∷ [])) shards)

  unfoldable pub replace_data : Map → Store → Store
  replace_data entries st = record st { shards = distribute entries (clear_shards st.shards) }

  -- `shard.data[key] = value`
  unfoldable pub put : Bytes → Bytes → Store → Store
  put key value st = record st {
    shards = change_shard (shard_index key) (assign key value) st.shards;
  }

  -- `shard.data.erase(key)`
  unfoldable pub remove : Bytes → Store → Store
  remove key st = record st { shards = change_shard (shard_index key) (erase key) st.shards }

  -- `shard.data.erase(key) > 0`
  unfoldable pub erases : Bytes → Store → Bool
  erases key st = ltb 0 (erase_count key (shard_at (shard_index key) st.shards))

  -- `Set`
  unfoldable pub set : Io → Bytes → Bytes → Exec (Unit {0})
  set io key value = do
    check_checkpoint_error
    on_wal (append_set io key value) tt
    modify (put key value)
    modify count_write

  -- `Delete`
  unfoldable pub delete : Io → Bytes → Exec Bool
  delete io key = do
    check_checkpoint_error
    on_wal (append_delete io key) tt
    λ st. (do modify (remove key); modify count_write; pure (erases key st)) st
