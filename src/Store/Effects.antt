-- ===== src/Store/Effects.antt =====
-- `Set`, `LoadSnapshot` and the collection of the data, as `Get` sees them.
use concurrent_kv_store.Base.{
  Result, stuck, throws, ◌⊎◌, inl, inr, true, ◌^◌, Option, zero, [], ◌<◌, suc, ◌∙◌, length, sym, ap,
  All, ◌∷◌, List, ℕ, arith, Bytes, refl, ◌≡◌, ◌≢◌, none, some, ok,
}
use concurrent_kv_store.BinaryIo.{Endian}
use mathlib.Core.Path.{subst}
use concurrent_kv_store.Maps.{Map, find, IsMap, insert_all}
use concurrent_kv_store.Maps.Laws.{find-insert_all, or_else, or_else-none}
use concurrent_kv_store.Snapshot.Types.{Files}
use concurrent_kv_store.Snapshot.Load.{load}
use concurrent_kv_store.Snapshot.RoundTrip.{IsLoadable, snapshot_bytes, load-snapshot_bytes}
use concurrent_kv_store.Store.Data.{
  shard_index, shard_at, collect_shards, collect_data, get, put, set, count_write,
  check_checkpoint_error, schedule_checkpoint,
}
use concurrent_kv_store.Store.Lookup.{get-put, get-put_other, get-replace_data, IsSharded}
use concurrent_kv_store.Store.Persistence.{load_snapshot, cancel_pending_checkpoint}
use concurrent_kv_store.Store.Shards.{IsShards, IsStore, change_shard-IsShards}
use concurrent_kv_store.Maps.{assign, erase}
use concurrent_kv_store.Maps.Distinct.{assign-IsMap, erase-IsMap}
use concurrent_kv_store.Maps.Laws.{find-assign_other, find-erase_other}
use concurrent_kv_store.Store.Data.{remove}
use concurrent_kv_store.Store.State.{Store, shard_count}
use concurrent_kv_store.Wal.State.{Io}

count_write-shards : (st : Store) → (count_write st).shards ≡ st.shards
unfolding count_write schedule_checkpoint
count_write-shards st = ground arith

module _ (hash : Bytes → ℕ) where
  set-shards :
      (io : Io) (key value : Bytes) (st : Store)
      → let p = set hash io key value st in
        (p.0 ≡ ok tt → p.1.shards ≡ (put hash key value st).shards)
        × (p.0 ≢ ok tt → p.1.shards ≡ st.shards)
  unfolding set put check_checkpoint_error count_write schedule_checkpoint
  set-shards io key value st = ground arith

  pub get-shards :
      (key : Bytes) (a b : Store) → a.shards ≡ b.shards → get hash key a ≡ get hash key b
  unfolding get
  get-shards key a b e =
      ap (λ (shards : List Map). find key (shard_at (shard_index hash key) shards)) e

  -- In a store with all its shards, under any hash and whatever the system answers: when a SET returns,
  -- its key has the new value and each other key the value it had, be it in the same shard or another;
  -- when it does not return, because of the log or of an earlier checkpoint error, each key has the
  -- value it had.
  pub set-get :
      (io : Io) (key value : Bytes) (st : Store)
      → length st.shards ≡ shard_count
      → let p = set hash io key value st in
        (p.0 ≡ ok tt
          → (get hash key p.1 ≡ some value)
            × ((other : Bytes) → key ≢ other → get hash other p.1 ≡ get hash other st))
        × (p.0 ≢ ok tt → (other : Bytes) → get hash other p.1 ≡ get hash other st)
  set-get io key value st size =
      let (done, failed) = set-shards io key value st in
      let p = set hash io key value st in
      (
        λ e. (
          get-shards key p.1 (put hash key value st) (done e) ∙ get-put hash key value st size,
          λ other h.
              get-shards other p.1 (put hash key value st) (done e)
              ∙ get-put_other hash key value other st size h,
        ),
        λ e other. get-shards other p.1 st (failed e),
      )

  -- Let the committed snapshot be one that a save writes for a map whose keys differ, of fewer than
  -- 2^32 entries with keys and values of at most 64 MiB, and an offset below 2^64. Loading it into a
  -- store with all its shards, under any hash, returns the number of entries and the offset, and then
  -- the store finds each key exactly as the map does.
  pub load_snapshot-get :
      (host : Endian) (m : Map) (wal_offset : ℕ) (fs : Files) (st : Store)
      → IsMap m
      → All IsLoadable m
      → length m < 2 ^ 32
      → wal_offset < 2 ^ 64
      → fs.committed ≡ some (snapshot_bytes host m wal_offset)
      → length st.shards ≡ shard_count
      → let p = load_snapshot hash host fs st in
        (p.0 ≡ ok (record { loaded = true; entry_count = length m; wal_offset = wal_offset }))
        × ((key : Bytes) → get hash key p.1 ≡ find key m)
  unfolding load_snapshot cancel_pending_checkpoint
  load_snapshot-get host m wal_offset fs st distinct fields count offset committed size =
      let e : load host fs.committed []
          ≡ ok (record { loaded = true; entry_count = length m; wal_offset = wal_offset }, m) =
        ap (λ (o : Option Bytes). load host o []) committed
        ∙ load-snapshot_bytes host m wal_offset distinct fields count offset [] in
      (rw e refl, λ key. rw e (get-replace_data hash key m _ size))

pub put-IsStore :
    (hash : Bytes → ℕ) (key value : Bytes) (st : Store)
    → IsStore hash st
    → IsStore hash (put hash key value st)
unfolding put
put-IsStore hash key value st h =
    change_shard-IsShards hash key (assign key value) st.shards
      (λ m k ne. find-assign_other key value k m ne) (assign-IsMap key value) h

pub remove-IsStore :
    (hash : Bytes → ℕ) (key : Bytes) (st : Store)
    → IsStore hash st
    → IsStore hash (remove hash key st)
unfolding remove
remove-IsStore hash key st h =
    change_shard-IsShards hash key (erase key) st.shards (λ m k ne. find-erase_other key k m ne)
      (erase-IsMap key) h

ends : (result : Result (Unit {0})) → (result ≡ ok tt) ⊎ (result ≢ ok tt)
ends (ok _) = inl refl
ends (throws e) = inr (λ h. cc)
ends stuck = inr (λ h. cc)

-- A SET, whether it returns or throws, keeps the number of shards of the store and that each key stands
-- once in its own shard and in no other.
pub set-IsStore :
    (hash : Bytes → ℕ) (io : Io) (key value : Bytes) (st : Store)
    → IsStore hash st
    → IsStore hash (set hash io key value st).1
set-IsStore hash io key value st h =
    let (done, failed) = set-shards hash io key value st in
    elim (ends ((set hash io key value st).0)) [
      | inl e ↦ subst (IsShards hash) (sym (done e)) (put-IsStore hash key value st h)
      | inr e ↦ subst (IsShards hash) (sym (failed e)) h
    ]

collect_shards-none :
    (key : Bytes) (result : Map) (shards : List Map)
    → ((i : ℕ) → find key (shard_at i shards) ≡ none)
    → find key (collect_shards result shards) ≡ find key result
unfolding collect_shards shard_at
collect_shards-none key result [] h = refl
collect_shards-none key result (m ∷ ms) h =
    collect_shards-none key (insert_all result m) ms (λ i. h (suc i))
    ∙ find-insert_all key result m
    ∙ ap (or_else (find key result)) (h zero)
    ∙ or_else-none (find key result)

collect_shards-find :
    (key : Bytes) (j : ℕ) (result : Map) (shards : List Map)
    → ((i : ℕ) → i ≢ j → find key (shard_at i shards) ≡ none)
    → find key (collect_shards result shards)
      ≡ or_else (find key result) (find key (shard_at j shards))
unfolding collect_shards shard_at find
collect_shards-find key j result [] h = sym (or_else-none (find key result))
collect_shards-find key zero result (m ∷ ms) h =
    collect_shards-none key (insert_all result m) ms
      (λ i. h (suc i) (λ e. absurd (omega (arith, e))))
    ∙ find-insert_all key result m
collect_shards-find key (suc j) result (m ∷ ms) h =
    collect_shards-find key j (insert_all result m) ms
      (λ i np. h (suc i) (λ e. np (omega (arith, e))))
    ∙ ap (λ (o : Option Bytes). or_else o (find key (shard_at j ms)))
        (find-insert_all key result m
          ∙ ap (or_else (find key result)) (h zero (λ e. absurd (omega (arith, e))))
          ∙ or_else-none (find key result))

-- Where each key stands in its own shard only, the map that is collected from the shards for a snapshot
-- finds each key as the store does.
pub find-collect_data :
    (hash : Bytes → ℕ) (key : Bytes) (st : Store)
    → IsSharded hash st.shards
    → find key (collect_data st) ≡ get hash key st
unfolding collect_data get find
find-collect_data hash key st h =
    collect_shards-find key (shard_index hash key) [] st.shards (h key)
