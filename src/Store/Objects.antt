-- ===== src/Store/Objects.antt =====
-- The constructors and assignments of `KVStore`.
use concurrent_kv_store.Base.{
  Bytes, ℕ, ◌||◌, Bool, true, false, Option, none, some, List, [], replicate, if◌then◌else◌, Result,
  ok, throws, store_not_copyable, store_not_movable,
}
use concurrent_kv_store.Maps.{Map}
use concurrent_kv_store.Snapshot.Types.{Files}
use concurrent_kv_store.Store.Data.{collect_data, replace_data}
use concurrent_kv_store.Store.State.{Store, shard_count}
use concurrent_kv_store.Wal.State.{Wal}

-- `KVStore(wal, snapshot)`
unfoldable pub new_store : Option Wal → Option Files → Store
new_store wal snapshot = record {
  shards = replicate shard_count [];
  wal = wal;
  snapshot = snapshot;
  writes_since_snapshot = 0;
  checkpoint_requested = false;
  checkpoint_active = false;
  checkpoint_stopping = false;
  checkpoint_epoch = 0;
  checkpoint_error = none;
}

unfoldable pub has_snapshot : Store → Bool
has_snapshot st = elim st.snapshot [ none ↦ false | some _ ↦ true ]

-- The lines that copy the members, behind the guards.
unfoldable pub copy_members : (Bytes → ℕ) → Store → Store → Store
copy_members hash other st = record (replace_data hash (collect_data other) st) {
  wal = other.wal;
  snapshot = other.snapshot;
  writes_since_snapshot = other.writes_since_snapshot;
}

-- `KVStore(const KVStore&)`
unfoldable pub copy_store : (Bytes → ℕ) → Store → Result Store
copy_store hash other =
    if has_snapshot other
    then throws store_not_copyable
    else ok (copy_members hash other (new_store none none))

-- `operator=(const KVStore&)` of another object.
unfoldable pub copy_assign : (Bytes → ℕ) → Store → Store → Result Store
copy_assign hash other st =
    if has_snapshot st || has_snapshot other
    then throws store_not_copyable
    else ok (copy_members hash other st)

-- The object that the data is moved to, and the one that is left; `left` is what moved-from maps hold,
-- which the language leaves open.
unfoldable pub move_members : List Map → Store → Store → Store × Store
move_members left other st = (
  record st {
    shards = other.shards;
    wal = other.wal;
    snapshot = other.snapshot;
    writes_since_snapshot = other.writes_since_snapshot;
  },
  record other { shards = left; wal = none; snapshot = none; writes_since_snapshot = 0 },
)

-- `KVStore(KVStore&&)`
unfoldable pub move_store : List Map → Store → Result (Store × Store)
move_store left other =
    if has_snapshot other
    then throws store_not_movable
    else ok (move_members left other (new_store none none))

-- `operator=(KVStore&&)` from another object.
unfoldable pub move_assign : List Map → Store → Store → Result (Store × Store)
move_assign left other st =
    if has_snapshot st || has_snapshot other
    then throws store_not_movable
    else ok (move_members left other st)
