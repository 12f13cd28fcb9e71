-- ===== src/System/Sound.antt =====
-- The invariant of a running process: the memory is the log's records on the original data, and the
-- committed snapshot and what is captured are points of the log.
use concurrent_kv_store.Base.{
  [], ◌^◌, ℕ, ◌≡◌, ◌<◌, ◌∙◌, Option, none, some, List, Bytes, All, length, sym, ap, arith,
  length-append,
}
use concurrent_kv_store.BinaryIo.{Endian}
use concurrent_kv_store.Main.Recovery.{Commits, Restores, recover-get, Restores-SameView}
use concurrent_kv_store.Maps.{Map}
use concurrent_kv_store.Snapshot.Commit.{IsSnapshot}
use concurrent_kv_store.Snapshot.RoundTrip.{IsLoadable}
use concurrent_kv_store.Snapshot.Types.{Files}
use concurrent_kv_store.Store.Data.{get, collect_data}
use concurrent_kv_store.Store.Effects.{find-collect_data}
use concurrent_kv_store.Store.Shards.{IsStore, IsShards, collect_shards-IsMap, collect_shards-All}
use concurrent_kv_store.Store.State.{Store}
use concurrent_kv_store.System.{System}
use concurrent_kv_store.System.Points.{Point, Point-memory}
use concurrent_kv_store.Wal.Append.Holds.{Holds}
use concurrent_kv_store.Wal.Append.Suffix.{Holds-ReplaysFrom}
use concurrent_kv_store.Wal.Replay.View.{View, view, update_all, SameView}
use concurrent_kv_store.Wal.State.{Wal}
use concurrent_kv_store.Wal.Types.{ParsedRecord, u64_max}
use mathlib.Core.Path.{subst}

-- A map and an offset that a snapshot can hold, and that are a point of the log.
pub record Saves (host : Endian) (rs : List ParsedRecord) (origin : View) (m : Map) (offset : ℕ)
    : Type 0 where
  pub snapshot : IsSnapshot m offset
  pub point : Point host rs origin m offset

-- What is captured, if anything, can be saved.
abbrev pub Flight : Endian → List ParsedRecord → View → Option (Map × ℕ) → Type 0
Flight host rs origin none = Unit {0}
Flight host rs origin (some (m, offset)) = Saves host rs origin m offset

-- The committed file.
pub record Backed (host : Endian) (rs : List ParsedRecord) (origin : View)
    (committed : Option Bytes) : Type 0 where
  pub saved : Map
  pub offset : ℕ
  pub commits : Commits host committed saved offset
  pub saves : Saves host rs origin saved offset

-- The data of the shards.
pub record Memory (hash : Bytes → ℕ) (st : Store) (v : View) : Type 0 where
  pub stored : IsStore hash st
  pub fields : All (All IsLoadable) st.shards
  pub same : SameView (λ key. get hash key st) v

pub record Sound (hash : Bytes → ℕ) (host : Endian) (s : System) : Type 0 where
  pub wal : Wal
  pub files : Files
  pub rs : List ParsedRecord
  pub origin : View
  pub has_wal : s.store.wal ≡ some wal
  pub has_snapshot : s.store.snapshot ≡ some files
  pub same_host : wal.host ≡ host
  pub holds : Holds wal rs
  pub room : length rs < u64_max
  pub memory : Memory hash s.store (update_all rs origin)
  pub backed : Backed host rs origin files.committed
  pub flight : Flight host rs origin s.captured

-- The map that is collected from the shards.
pub Memory-collect_data :
    (hash : Bytes → ℕ) (st : Store) (v : View)
    → Memory hash st v
    → SameView (view (collect_data st)) v
Memory-collect_data hash st v h key = find-collect_data hash key st h.stored.sharded ∙ h.same key

pub Memory-IsSnapshot :
    (hash : Bytes → ℕ) (st : Store) (v : View) (offset : ℕ)
    → Memory hash st v
    → length (collect_data st) < 2 ^ 32
    → offset < 2 ^ 63
    → IsSnapshot (collect_data st) offset
unfolding collect_data
Memory-IsSnapshot hash st v offset h count bound = record {
  distinct = collect_shards-IsMap [] st.shards tt;
  fields = collect_shards-All IsLoadable [] st.shards tt h.fields;
  count = count;
  bound = bound;
}

pub Memory-shards :
    (hash : Bytes → ℕ) (a b : Store) (v : View)
    → b.shards ≡ a.shards
    → Memory hash a v
    → Memory hash b v
unfolding get
Memory-shards hash a b v e h = record {
  stored = subst (IsShards hash) (sym e) h.stored;
  fields = subst (All (All IsLoadable)) (sym e) h.fields;
  same = λ key. rw e (h.same key);
}

-- A file with the point's records restores the memory.
pub Backed-Restores :
    (hash : Bytes → ℕ) (w : Wal) (rs : List ParsedRecord) (origin : View) (committed : Option Bytes)
    → Backed w.host rs origin committed
    → Holds w rs
    → length rs < u64_max
    → Restores hash w.host committed w.file (update_all rs origin)
Backed-Restores hash w rs origin committed b h room =
    let p = b.saves.point in
    Restores-SameView hash w.host committed w.file _ (update_all rs origin)
      (Point-memory w.host rs origin b.saved b.offset p)
      (recover-get hash w.host committed w.file b.saved b.offset p.rest b.saves.snapshot b.commits (
        Holds-ReplaysFrom w p.covered p.rest b.offset (subst (Holds w) p.split h) p.covers
          b.saves.snapshot.bound
          (omega (arith, room, ap length p.split, length-append p.covered p.rest))))
