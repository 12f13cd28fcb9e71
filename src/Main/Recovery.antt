-- ===== src/Main/Recovery.antt =====
-- What a store finds behind the recovery from a snapshot and a log.
use concurrent_kv_store.Base.{
  ℕ, ◌≡◌, ◌∙◌, ◌⊎◌, ap, sym, refl, some, none, Option, Bytes, List, [], length, ok, inl, inr, arith,
}
use concurrent_kv_store.BinaryIo.{Endian}
use concurrent_kv_store.Main.{recover}
use concurrent_kv_store.Maps.{Map}
use concurrent_kv_store.Snapshot.Commit.{IsSnapshot}
use concurrent_kv_store.Snapshot.Load.{load, not_loaded}
use concurrent_kv_store.Snapshot.RoundTrip.{snapshot_bytes, load-snapshot_bytes}
use concurrent_kv_store.Snapshot.Types.{SnapshotLoadResult}
use concurrent_kv_store.Store.Data.{get, collect_data, replace_data}
use concurrent_kv_store.Store.Effects.{find-collect_data}
use concurrent_kv_store.Store.Lookup.{get-replace_data}
use concurrent_kv_store.Store.Persistence.{
  load_snapshot, replay_from_wal, cancel_pending_checkpoint,
}
use concurrent_kv_store.Store.Shards.{IsStore, replace_data-IsStore, collect_shards-IsMap}
use concurrent_kv_store.Store.State.{Store, shard_count}
use concurrent_kv_store.Wal.Append.Suffix.{ReplaysFrom}
use concurrent_kv_store.Wal.Replay.View.{
  SameView, View, view, update_all, view-apply_all, update_all-SameView,
}
use concurrent_kv_store.Wal.Replay.Written.{apply_all}
use concurrent_kv_store.Wal.State.{Wal}
use concurrent_kv_store.Wal.Truncate.{replay_from, replay_wal}
use concurrent_kv_store.Wal.Types.{ParsedRecord}

-- The committed file holds the map and the offset; or there is none, and both are empty.
abbrev pub Commits : Endian → Option Bytes → Map → ℕ → Type 0
Commits host committed m offset =
    (committed ≡ some (snapshot_bytes host m offset))
    ⊎ ((committed ≡ none) × (m ≡ []) × (offset ≡ 0))

load-Commits :
    (host : Endian) (committed : Option Bytes) (m : Map) (offset : ℕ)
    → IsSnapshot m offset
    → Commits host committed m offset
    → (result : SnapshotLoadResult) × (load host committed [] ≡ ok (result, m))
      × (result.wal_offset ≡ offset)
unfolding load
load-Commits host committed m offset h commits = elim commits [
  | inl e ↦ (
    _,
    ap (λ (o : Option Bytes). load host o []) e
        ∙ load-snapshot_bytes host m offset h.distinct h.fields h.count (omega (arith, h.bound)) [],
    refl,
  )
  | inr (e, nothing, zero_offset) ↦ (not_loaded, rw (e, nothing) refl, sym zero_offset)
]

-- A process that starts with these files has a store that finds what the view says.
abbrev pub Restores : (Bytes → ℕ) → Endian → Option Bytes → Bytes → View → Type 0
Restores hash host committed file v =
    (temp : Option Bytes) (w : Wal) (st : Store)
    → w.host ≡ host
    → w.file ≡ file
    → length st.shards ≡ shard_count
    → (result : SnapshotLoadResult) × (count : ℕ) × (after : Store) × (recover hash host
          (record { committed = committed; temp = temp }) w st
        ≡ (ok (result, count), after))
      × IsStore hash after
      × ((key : Bytes) → get hash key after ≡ v key)

module _ (hash : Bytes → ℕ) where
  -- The store behind a load of the map and a replay of the records.
  abbrev loaded_store : Map → Store → Store
  loaded_store m st = replace_data hash m (cancel_pending_checkpoint st)

  abbrev pub restored : Map → List ParsedRecord → Store → Store
  restored m rest st =
      let replaced = loaded_store m st in
      replace_data hash (apply_all rest (collect_data replaced)) replaced

  module _ (m : Map) (rest : List ParsedRecord) (st : Store)
      (size : length st.shards ≡ shard_count) where
    cancelled : length (cancel_pending_checkpoint st).shards ≡ shard_count
    unfolding cancel_pending_checkpoint
    cancelled = size

    loaded-IsStore : IsStore hash (loaded_store m st)
    loaded-IsStore = replace_data-IsStore hash m (cancel_pending_checkpoint st) cancelled

    pub restored-IsStore : IsStore hash (restored m rest st)
    restored-IsStore =
        replace_data-IsStore hash (apply_all rest (collect_data (loaded_store m st)))
          (loaded_store m st) loaded-IsStore.count

    pub restored-get :
        (key : Bytes) → get hash key (restored m rest st) ≡ update_all rest (view m) key
    unfolding collect_data
    restored-get key =
        let replaced = loaded_store m st in
        let collected = collect_data replaced in
        get-replace_data hash key (apply_all rest collected) replaced loaded-IsStore.count
        ∙ view-apply_all rest collected (collect_shards-IsMap [] replaced.shards tt) key
        ∙ update_all-SameView rest (view collected) (view m)
            (λ k.
              find-collect_data hash k replaced loaded-IsStore.sharded
              ∙ get-replace_data hash k m (cancel_pending_checkpoint st) cancelled)
            key

module _ (hash : Bytes → ℕ) (host : Endian) where
  -- What `LoadSnapshot` and `ReplayFromWal` do, one after the other.
  pub recover-restored :
      (committed temp : Option Bytes) (w : Wal) (m : Map) (offset : ℕ) (rest : List ParsedRecord)
      (st : Store)
      → IsSnapshot m offset
      → Commits host committed m offset
      → w.host ≡ host
      → ReplaysFrom host w.file offset rest
      → (result : SnapshotLoadResult) × (count : ℕ) × (recover hash host
            (record { committed = committed; temp = temp })
            w
            st
          ≡ (ok (result, count), restored hash m rest st))
  unfolding recover load_snapshot replay_from_wal replay_from replay_wal
  recover-restored committed temp w m offset rest st h commits same_host replays =
      let (result, loaded, offset_eq) = load-Commits host committed m offset h commits in
      let (replayed, e) = replays (collect_data (loaded_store hash m st)) in
      (result, replayed.applied_operations, rw loaded (rw (offset_eq, same_host) (rw e refl)))

  pub recover-get :
      (committed : Option Bytes) (file : Bytes) (m : Map) (offset : ℕ) (rest : List ParsedRecord)
      → IsSnapshot m offset
      → Commits host committed m offset
      → ReplaysFrom host file offset rest
      → Restores hash host committed file (update_all rest (view m))
  recover-get committed file m offset rest h commits replays temp w st same_host same_file size =
      let (result, count, e) =
        recover-restored committed temp w m offset rest st h commits same_host
          (rw same_file replays) in
      (
        result,
        count,
        restored hash m rest st,
        e,
        restored-IsStore hash m rest st size,
        restored-get hash m rest st size,
      )

  pub Restores-SameView :
      (committed : Option Bytes) (file : Bytes) (v u : View)
      → SameView v u
      → Restores hash host committed file v
      → Restores hash host committed file u
  Restores-SameView committed file v u same h temp w st same_host same_file size =
      let (result, count, after, e, stored, gets) = h temp w st same_host same_file size in
      (result, count, after, e, stored, λ key. gets key ∙ same key)
