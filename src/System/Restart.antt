-- ===== src/System/Restart.antt =====
-- A process that starts on the files of another.
use concurrent_kv_store.Base.{
  ok-injective, bind-ok, ℕ, ◌≡◌, ◌∙◌, Bytes, List, [], ◌∷◌, All, none, some, ap, sym, refl, ok,
  true, arith, length, length-append, Result,
}
use concurrent_kv_store.BinaryIo.{Endian}
use concurrent_kv_store.Main.{start, recover, default_max_batch}
use concurrent_kv_store.Main.Recovery.{restored, restored-IsStore, restored-get, recover-restored}
use concurrent_kv_store.Maps.{Map}
use concurrent_kv_store.Maps.Distinct.{assign-All, erase-All}
use concurrent_kv_store.Snapshot.RoundTrip.{IsLoadable}
use concurrent_kv_store.Snapshot.Types.{Files, SnapshotLoadResult}
use concurrent_kv_store.Store.Data.{get, collect_data, replace_data}
use concurrent_kv_store.Store.Objects.{new_store}
use concurrent_kv_store.Store.Persistence.{cancel_pending_checkpoint}
use concurrent_kv_store.Store.Shards.{collect_shards-All, replace_data-All}
use concurrent_kv_store.Store.State.{Store}
use concurrent_kv_store.System.{System}
use concurrent_kv_store.System.Points.{Point-memory}
use concurrent_kv_store.System.Sound.{Sound}
use concurrent_kv_store.Wal.Append.Call.{set_record}
use concurrent_kv_store.Wal.Append.Holds.{Holds}
use concurrent_kv_store.Wal.Append.Suffix.{Holds-ReplaysFrom, All-right, Covers, ReplaysFrom}
use concurrent_kv_store.Wal.Open.{open_wal}
use concurrent_kv_store.Wal.Open.Inspect.{Opened, open_wal-Opened}
use concurrent_kv_store.Wal.Record.Format.{IsStorable}
use concurrent_kv_store.Wal.Record.Parser.{apply_op, apply_record}
use concurrent_kv_store.Wal.Record.RoundTrip.{length-record_bytes}
use concurrent_kv_store.Wal.Replay.View.{update_all, SameView}
use concurrent_kv_store.Wal.Replay.Written.{apply_all}
use concurrent_kv_store.Wal.State.{Wal, Io}
use concurrent_kv_store.Wal.Types
use concurrent_kv_store.Wal.Types.{ParsedRecord, WalOp, buffered, u64_max}
use mathlib.Core.Path.{subst}

-- Records that the log took have fields that a snapshot takes.
apply_op-All :
    (host : Endian) (op : WalOp) (key value : Bytes) (m : Map)
    → IsStorable host true (record { op = op; key = key; value = value })
    → All IsLoadable m
    → All IsLoadable (apply_op op key value m)
unfolding apply_op
apply_op-All host Types.WalOp.set key value m s h =
    assign-All IsLoadable key value m
      (
        omega (arith, s.fits, length-record_bytes host true 0 (set_record key value)),
        omega (arith, s.fits, length-record_bytes host true 0 (set_record key value)),
      )
      h
apply_op-All host Types.WalOp.delete key value m s h = erase-All IsLoadable key m h

apply_all-All :
    (host : Endian) (rs : List ParsedRecord) (m : Map)
    → All (IsStorable host true) rs
    → All IsLoadable m
    → All IsLoadable (apply_all rs m)
unfolding apply_all apply_record
apply_all-All host [] m s h = h
apply_all-All host (r ∷ rs) m s h =
    apply_all-All host rs (apply_record r m) (s.1) (apply_op-All host r.op r.key r.value m (s.0) h)

restored-All :
    (hash : Bytes → ℕ) (host : Endian) (m : Map) (rest : List ParsedRecord) (st : Store)
    → All (IsStorable host true) rest
    → All IsLoadable m
    → All (All IsLoadable) (restored hash m rest st).shards
unfolding collect_data
restored-All hash host m rest st s h =
    let replaced = replace_data hash m (cancel_pending_checkpoint st) in
    replace_data-All hash IsLoadable (apply_all rest (collect_data replaced)) replaced (
      apply_all-All host rest (collect_data replaced) s (
        collect_shards-All IsLoadable [] replaced.shards tt
          (replace_data-All hash IsLoadable m (cancel_pending_checkpoint st) h)))

restored-parts :
    (hash : Bytes → ℕ) (m : Map) (rest : List ParsedRecord) (st : Store)
    → ((restored hash m rest st).wal ≡ st.wal) × ((restored hash m rest st).snapshot ≡ st.snapshot)
unfolding replace_data cancel_pending_checkpoint
restored-parts hash m rest st = (refl, refl)

-- A start that returned opened the log and recovered.
start-parts :
    (hash : Bytes → ℕ) (host : Endian) (io : Io) (file : Bytes) (files : Files)
    (r : SnapshotLoadResult × ℕ) (st : Store)
    → start hash host io file files ≡ ok (r, st)
    → (u : Wal) × (open_wal host io file buffered default_max_batch ≡ ok u)
      × (recover hash host files u (new_store (some u) (some files)) ≡ (ok r, st))
unfolding start
start-parts hash host io file files r st e =
    let (u, opened, recovered) =
      bind-ok (open_wal host io file buffered default_max_batch) _ (r, st) e in
    let p = recover hash host files u (new_store (some u) (some files)) in
    let (q, result_eq, store_eq) = bind-ok p.0 (λ q. ok (q, p.1)) (r, st) recovered in
    let pair : (q, p.1) ≡ (r, st) = ok-injective store_eq in
    (
      u,
      opened,
      ap (λ (x : Result (SnapshotLoadResult × ℕ)). (x, p.1)) result_eq
          ∙ ap (λ (x : (SnapshotLoadResult × ℕ) × Store). (ok x.0, x.1)) pair,
    )

module _ (hash : Bytes → ℕ) (host : Endian) (s : System) (h : Sound hash host s) where
  abbrev pub started : Wal → Store
  started u =
      restored hash h.backed.saved h.backed.saves.point.rest (new_store (some u) (some h.files))

  -- The log and the data behind the start.
  started-Sound :
      (u : Wal)
      → Opened h.wal.host h.wal.file h.rs u
      → Sound hash host (record { store = started u; captured = none })
        × SameView (λ key. get hash key (started u)) (λ key. get hash key s.store)
  unfolding new_store
  started-Sound u (holds, same_host, same_file) =
      let b = h.backed in
      let p = b.saves.point in
      let fresh_store = new_store (some u) (some h.files) in
      let (wal_eq, snapshot_eq) = restored-parts hash b.saved p.rest fresh_store in
      let same : SameView (λ key. get hash key (started u)) (update_all h.rs h.origin) = λ key.
        restored-get hash b.saved p.rest fresh_store refl key
        ∙ Point-memory host h.rs h.origin b.saved b.offset p key in
      let storable : All (IsStorable h.wal.host true) p.rest =
        All-right (IsStorable h.wal.host true) p.covered p.rest
          (subst (All (IsStorable h.wal.host true)) p.split h.holds.storable) in
      (
        record {
          wal = u;
          files = h.files;
          rs = h.rs;
          origin = h.origin;
          has_wal = wal_eq;
          has_snapshot = snapshot_eq;
          same_host = same_host ∙ h.same_host;
          holds = holds;
          room = h.room;
          memory = record {
            stored = restored-IsStore hash b.saved p.rest fresh_store refl;
            fields =
                restored-All hash h.wal.host b.saved p.rest fresh_store storable
                  b.saves.snapshot.fields;
            same = same;
          };
          backed = b;
          flight = tt;
        },
        λ key. same key ∙ sym (h.memory.same key),
      )

  pub replays : ReplaysFrom host h.wal.file h.backed.offset h.backed.saves.point.rest
  replays =
      let p = h.backed.saves.point in
      subst (λ (host : Endian). ReplaysFrom host h.wal.file h.backed.offset p.rest) h.same_host
        (Holds-ReplaysFrom h.wal p.covered p.rest h.backed.offset
          (subst (Holds h.wal) p.split h.holds)
          (subst (λ (host : Endian). Covers host h.backed.offset p.covered) (sym h.same_host)
            p.covers)
          h.backed.saves.snapshot.bound
          (omega (arith, h.room, ap length p.split, length-append p.covered p.rest)))

  -- A start on the files of a sound state is sound and has its memory.
  pub restart-Sound :
      (io : Io) (r : SnapshotLoadResult × ℕ) (st : Store)
      → start hash host io h.wal.file h.files ≡ ok (r, st)
      → Sound hash host (record { store = st; captured = none })
        × SameView (λ key. get hash key st) (λ key. get hash key s.store)
  restart-Sound io r st e =
      let (u, opened, recovered) = start-parts hash host io h.wal.file h.files r st e in
      let same_open : open_wal h.wal.host io h.wal.file buffered default_max_batch ≡ ok u =
        ap (λ (host : Endian). open_wal host io h.wal.file buffered default_max_batch) h.same_host
        ∙ opened in
      let open_state =
        open_wal-Opened h.wal h.rs io buffered default_max_batch u h.holds h.room same_open in
      let b = h.backed in
      let (result, count, exact) =
        recover-restored hash host h.files.committed h.files.temp u b.saved b.offset
          b.saves.point.rest (new_store (some u) (some h.files)) b.saves.snapshot b.commits
          (open_state.1 ∙ h.same_host) (rw (open_state.2) replays) in
      let store_eq : started u ≡ st = ap (λ q. q.1) (sym exact ∙ recovered) in
      subst
        (λ (t : Store).
          Sound hash host (record { store = t; captured = none })
          × SameView (λ key. get hash key t) (λ key. get hash key s.store))
        store_eq (started-Sound u open_state)
