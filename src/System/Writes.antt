-- ===== src/System/Writes.antt =====
-- A SET or a DELETE that returns keeps the invariant.
use concurrent_kv_store.Wal.Append.Holds.{Holds}
use concurrent_kv_store.Base.{
  ◌+◌, ◌≡◌, ◌∙◌, ◌<◌, All, Bytes, Bool, List, [], ◌∷◌, ◌++◌, ℕ, Option, none, some, ok, returned,
  true, bytes_discrete, ite, sym, ap, arith, length, length-append,
}
use concurrent_kv_store.BinaryIo.{Endian}
use concurrent_kv_store.Maps.{Map, assign, erase}
use concurrent_kv_store.Maps.Distinct.{assign-All, erase-All}
use concurrent_kv_store.Snapshot.RoundTrip.{IsLoadable}
use concurrent_kv_store.Store.Data.{get, put, remove, set, delete, shard_index}
use concurrent_kv_store.Store.Effects.{put-IsStore, remove-IsStore}
use concurrent_kv_store.Store.Deletes.{get-remove}
use concurrent_kv_store.Store.Lookup.{get-put, get-put_other}
use concurrent_kv_store.Store.Shards.{change_shard-All}
use concurrent_kv_store.Store.State.{Store}
use concurrent_kv_store.System.{System}
use concurrent_kv_store.System.Calls.{set-parts, delete-parts}
use concurrent_kv_store.System.Points.{Point-later}
use concurrent_kv_store.System.Sound.{Sound, Memory, Memory-shards, Saves, Flight, Backed}
use concurrent_kv_store.Wal.Append.Call.{
  append_set-returned, append_delete-returned, set_record, delete_record,
}
use concurrent_kv_store.Wal.Append.{append_set, append_delete}
use concurrent_kv_store.Wal.Record.Format.{IsStorable}
use concurrent_kv_store.Wal.Record.RoundTrip.{length-record_bytes}
use concurrent_kv_store.Wal.Replay.View.{View, update, update_all, update_all-append}
use concurrent_kv_store.Wal.State.{Wal, Io}
use concurrent_kv_store.Wal.Types.{ParsedRecord, u64_max}
use mathlib.Core.Logic.{by_cases, if_pos, if_neg}
use mathlib.Core.Path.{subst}

module _ (hash : Bytes → ℕ) (st : Store) (v : View) (h : Memory hash st v) where
  Memory-put :
      (key value : Bytes)
      → IsLoadable (key, value)
      → Memory hash (put hash key value st) (update (set_record key value) v)
  unfolding put
  Memory-put key value fits = record {
    stored = put-IsStore hash key value st h.stored;
    fields =
        change_shard-All (All IsLoadable) (shard_index hash key) (assign key value) st.shards
          (λ m d. assign-All IsLoadable key value m fits d) h.fields;
    same = λ k.
        by_cases (bytes_discrete key k)
          (λ e.
            subst (λ (x : Bytes). get hash x (put hash key value st) ≡ some value) e
              (get-put hash key value st h.stored.count)
            ∙ sym (if_pos (bytes_discrete key k) e (some value) (v k)))
          (λ ne.
            get-put_other hash key value k st h.stored.count ne
            ∙ h.same k
            ∙ sym (if_neg (bytes_discrete key k) ne (some value) (v k)));
  }

  Memory-remove : (key : Bytes) → Memory hash (remove hash key st) (update (delete_record key) v)
  unfolding remove
  Memory-remove key = record {
    stored = remove-IsStore hash key st h.stored;
    fields =
        change_shard-All (All IsLoadable) (shard_index hash key) (erase key) st.shards
          (λ m d. erase-All IsLoadable key m d) h.fields;
    same = λ k. get-remove hash key k st h.stored ∙ ap (ite (bytes_discrete key k) none) (h.same k);
  }

fields-IsLoadable :
    (host : Endian) (key value : Bytes)
    → IsStorable host true (set_record key value)
    → IsLoadable (key, value)
fields-IsLoadable host key value s = (
  omega (arith, s.fits, length-record_bytes host true 0 (set_record key value)),
  omega (arith, s.fits, length-record_bytes host true 0 (set_record key value)),
)

module _ (host : Endian) (rs : List ParsedRecord) (origin : View) (r : ParsedRecord) where
  Saves-later :
      (m : Map) (offset : ℕ)
      → Saves host rs origin m offset
      → Saves host (rs ++ r ∷ []) origin m offset
  Saves-later m offset s = record {
    snapshot = s.snapshot;
    point = Point-later host rs origin m offset (r ∷ []) s.point;
  }

  Flight-later :
      (captured : Option (Map × ℕ))
      → Flight host rs origin captured
      → Flight host (rs ++ r ∷ []) origin captured
  Flight-later none f = tt
  Flight-later (some (m, offset)) f = Saves-later m offset f

  pub Backed-later :
      (committed : Option Bytes)
      → Backed host rs origin committed
      → Backed host (rs ++ r ∷ []) origin committed
  Backed-later committed b = record {
    saved = b.saved;
    offset = b.offset;
    commits = b.commits;
    saves = Saves-later b.saved b.offset b.saves;
  }

module _ (hash : Bytes → ℕ) (host : Endian) (s : System) (h : Sound hash host s) where
  -- A record that the log took and the shards show.
  Sound-write :
      (r : ParsedRecord) (w : Wal) (after : Store)
      → Holds w (h.rs ++ r ∷ [])
      → w.host ≡ h.wal.host
      → 1 + length h.rs < u64_max
      → after.wal ≡ some w
      → after.snapshot ≡ s.store.snapshot
      → Memory hash after (update r (update_all h.rs h.origin))
      → Sound hash host (record s { store = after })
  Sound-write r w after holds same room has_wal has_snapshot memory = record {
    wal = w;
    files = h.files;
    rs = h.rs ++ r ∷ [];
    origin = h.origin;
    has_wal = has_wal;
    has_snapshot = has_snapshot ∙ h.has_snapshot;
    same_host = same ∙ h.same_host;
    holds = holds;
    room = omega (arith, room, length-append h.rs (r ∷ []));
    memory = subst (Memory hash after) (sym (update_all-append h.rs (r ∷ []) h.origin)) memory;
    backed = Backed-later host h.rs h.origin r h.files.committed h.backed;
    flight = Flight-later host h.rs h.origin r s.captured h.flight;
  }

  pub set-Sound :
      (io : Io) (key value : Bytes) (after : Store)
      → set hash io key value s.store ≡ (ok tt, after)
      → Sound hash host (record s { store = after })
  set-Sound io key value after e =
      let p = set hash io key value s.store in
      let after_eq : p.1 ≡ after = ap (λ q. q.1) e in
      let (done, has_wal, has_snapshot, shards) =
        set-parts hash io s.store h.wal h.has_wal key value (ap (λ q. q.0) e) in
      let (storable, holds, same, room) =
        append_set-returned io h.wal h.rs h.holds h.room key value done in
      Sound-write (set_record key value) (append_set io key value h.wal).1 after holds same room
        (subst (λ (t : Store). t.wal ≡ some (append_set io key value h.wal).1) after_eq has_wal)
        (subst (λ (t : Store). t.snapshot ≡ s.store.snapshot) after_eq has_snapshot)
        (Memory-shards hash (put hash key value s.store) after _
          (subst (λ (t : Store). t.shards ≡ (put hash key value s.store).shards) after_eq shards)
          (Memory-put hash s.store _ h.memory key value
            (fields-IsLoadable h.wal.host key value storable)))

  pub delete-Sound :
      (io : Io) (key : Bytes) (erased : Bool) (after : Store)
      → delete hash io key s.store ≡ (ok erased, after)
      → Sound hash host (record s { store = after })
  delete-Sound io key erased after e =
      let p = delete hash io key s.store in
      let after_eq : p.1 ≡ after = ap (λ q. q.1) e in
      let (done, has_wal, has_snapshot, shards) =
        delete-parts hash io s.store h.wal h.has_wal key (ap (λ q. returned q.0) e) in
      let (storable, holds, same, room) =
        append_delete-returned io h.wal h.rs h.holds h.room key done in
      Sound-write (delete_record key) (append_delete io key h.wal).1 after holds same room
        (subst (λ (t : Store). t.wal ≡ some (append_delete io key h.wal).1) after_eq has_wal)
        (subst (λ (t : Store). t.snapshot ≡ s.store.snapshot) after_eq has_snapshot)
        (Memory-shards hash (remove hash key s.store) after _
          (subst (λ (t : Store). t.shards ≡ (remove hash key s.store).shards) after_eq shards)
          (Memory-remove hash s.store _ h.memory key))
