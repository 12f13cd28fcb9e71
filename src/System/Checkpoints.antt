-- ===== src/System/Checkpoints.antt =====
-- Checkpoints, saves and compactions keep the invariant.
use concurrent_kv_store.System.{close_round}
use concurrent_kv_store.System.Calls.{close_round-Keeps}
use concurrent_kv_store.Base.{
  Result, ok-injective, ◌≡◌, ◌∙◌, ◌<◌, ◌^◌, inl, inr, Bytes, List, [], ℕ, Option, none, some, ok,
  returned, true, sym, ap, refl, arith, length,
}
use concurrent_kv_store.BinaryIo.{Endian}
use concurrent_kv_store.Maps.{Map}
use concurrent_kv_store.Snapshot.Commit.{IsSnapshot, save_verified-commits}
use concurrent_kv_store.Snapshot.RoundTrip.{snapshot_bytes}
use concurrent_kv_store.Snapshot.Save
use concurrent_kv_store.Snapshot.Types.{Files, SnapshotIo}
use concurrent_kv_store.Store.Checkpoint.{wake_up, takes, capture}
use concurrent_kv_store.Store.Data.{collect_data}
use concurrent_kv_store.Store.Persistence.{save_snapshot, compact_persistence}
use concurrent_kv_store.Store.State.{Store}
use concurrent_kv_store.System.{System, Fits, log_length, save_captured}
use concurrent_kv_store.System.Calls.{
  Keeps, wake_up-Keeps, capture-parts, save_captured-parts, save_snapshot-parts, compact-parts,
}
use concurrent_kv_store.System.Points.{Point-end}
use concurrent_kv_store.System.Sound.{
  Sound, Memory-shards, Memory-IsSnapshot, Memory-collect_data, Saves, Flight, Backed,
}
use concurrent_kv_store.Wal.Replay.View.{View, update_all}
use concurrent_kv_store.Wal.State.{Wal, Io}
use concurrent_kv_store.Wal.Truncate
use concurrent_kv_store.Wal.Truncate.Fresh.{rotate-Holds}
use concurrent_kv_store.Wal.Types.{ParsedRecord}
use mathlib.Core.Path.{subst}

-- A save of a point leaves a committed file that is one.
pub save-Backed :
    (host : Endian) (rs : List ParsedRecord) (origin : View) (sio : SnapshotIo) (m : Map)
    (offset : ℕ) (fs : Files)
    → Saves host rs origin m offset
    → Backed host rs origin fs.committed
    → Backed host rs origin (Save.save_verified host sio m offset fs).1.committed
save-Backed host rs origin sio m offset fs s b =
    let (either, _) = save_verified-commits host sio m offset fs s.snapshot in
    elim either [
      | inl kept ↦ subst (Backed host rs origin) (sym kept) b
      | inr new ↦ record { saved = m; offset = offset; commits = inl new; saves = s }
    ]

module _ (hash : Bytes → ℕ) (host : Endian) (s : System) (h : Sound hash host s) where
  -- Changes outside of the log, the files and the shards.
  pub Keeps-Sound :
      (after : Store) (captured : Option (Map × ℕ))
      → Keeps s.store after
      → Flight host h.rs h.origin captured
      → Sound hash host (record { store = after; captured = captured })
  Keeps-Sound after captured (same_wal, same_snapshot, same_shards) flight = record {
    wal = h.wal;
    files = h.files;
    rs = h.rs;
    origin = h.origin;
    has_wal = same_wal ∙ h.has_wal;
    has_snapshot = same_snapshot ∙ h.has_snapshot;
    same_host = h.same_host;
    holds = h.holds;
    room = h.room;
    memory = Memory-shards hash s.store after _ same_shards h.memory;
    backed = h.backed;
    flight = flight;
  }

  pub wake_up-Sound :
      (epoch : ℕ) (after : Store)
      → wake_up s.store ≡ takes epoch after
      → Sound hash host (record s { store = after })
  wake_up-Sound epoch after e =
      Keeps-Sound after s.captured (wake_up-Keeps epoch s.store after e) h.flight

  pub close_round-Sound :
      (p : Result (Unit {0}) × Store)
      → Keeps s.store p.1
      → Sound hash host (record s { store = close_round p })
  close_round-Sound p (same_wal, same_snapshot, same_shards) =
      let (wal_eq, snapshot_eq, shards_eq) = close_round-Keeps p in
      Keeps-Sound (close_round p) s.captured
        (wal_eq ∙ same_wal, snapshot_eq ∙ same_snapshot, shards_eq ∙ same_shards) h.flight

  -- The data of the shards and the end of the log.
  now-Saves : Fits s.store → Saves host h.rs h.origin (collect_data s.store) (length h.wal.file)
  unfolding log_length
  now-Saves (count, bound) = record {
    snapshot = Memory-IsSnapshot hash s.store _ (length h.wal.file) h.memory count (
        subst
          (λ (o : Option Wal).
            let n : ℕ = elim o [ none ↦ 0 | some w ↦ length w.file ] in n < 2 ^ 63)
          h.has_wal bound);
    point =
        Point-end host h.rs h.origin (collect_data s.store) h.wal h.same_host h.holds
          (Memory-collect_data hash s.store _ h.memory);
  }

  pub capture-Sound :
      (io : Io) (entries : Map) (wal_offset : ℕ) (after : Store)
      → capture io s.store ≡ (ok (entries, wal_offset), after)
      → Fits s.store
      → Sound hash host (record { store = after; captured = some (entries, wal_offset) })
  capture-Sound io entries wal_offset after e fits =
      let (result, keeps) = capture-parts io s.store h.wal h.has_wal (ap (λ q. returned q.0) e) in
      let same = ok-injective (sym result ∙ ap (λ q. q.0) e) in
      Keeps-Sound after (some (entries, wal_offset)) (subst (Keeps s.store) (ap (λ q. q.1) e) keeps)
        (subst (λ (p : Map × ℕ). Saves host h.rs h.origin p.0 p.1) same (now-Saves fits))

  -- A new committed file.
  Sound-files :
      (after : Store) (files : Files) (captured : Option (Map × ℕ))
      → after.wal ≡ s.store.wal
      → after.shards ≡ s.store.shards
      → after.snapshot ≡ some files
      → Backed host h.rs h.origin files.committed
      → Flight host h.rs h.origin captured
      → Sound hash host (record { store = after; captured = captured })
  Sound-files after files captured same_wal same_shards has_snapshot backed flight = record {
    wal = h.wal;
    files = files;
    rs = h.rs;
    origin = h.origin;
    has_wal = same_wal ∙ h.has_wal;
    has_snapshot = has_snapshot;
    same_host = h.same_host;
    holds = h.holds;
    room = h.room;
    memory = Memory-shards hash s.store after _ same_shards h.memory;
    backed = backed;
    flight = flight;
  }

  pub save_captured-Sound :
      (sio : SnapshotIo) (entries : Map) (wal_offset : ℕ)
      → s.captured ≡ some (entries, wal_offset)
      → Sound hash host
          (record { store = save_captured host sio (entries, wal_offset) s.store; captured = none })
  save_captured-Sound sio entries wal_offset e =
      let (same_wal, same_shards, has_snapshot) =
        save_captured-parts host sio entries wal_offset s.store h.files h.has_snapshot in
      let flight = subst (Flight host h.rs h.origin) e h.flight in
      Sound-files (save_captured host sio (entries, wal_offset) s.store) _ none same_wal same_shards
        has_snapshot (save-Backed host h.rs h.origin sio entries wal_offset h.files flight h.backed)
        tt

  pub save_snapshot-Sound :
      (io : Io) (sio : SnapshotIo)
      → Fits s.store
      → Sound hash host (record s { store = (save_snapshot host io sio s.store).1 })
  save_snapshot-Sound io sio fits =
      let (same_wal, same_shards, either) =
        save_snapshot-parts host io sio s.store h.wal h.files h.has_wal h.has_snapshot in
      let after = (save_snapshot host io sio s.store).1 in
      elim either [
        | inl kept ↦ Keeps-Sound after s.captured (same_wal, kept, same_shards) h.flight
        | inr saved ↦
            Sound-files after _ s.captured same_wal same_shards saved
              (save-Backed host h.rs h.origin sio (collect_data s.store) (length h.wal.file) h.files
                (now-Saves fits) h.backed)
              h.flight
      ]

  -- The full map with the offset zero, before the log is rotated: replaying all of the log over what it
  -- led to changes nothing.
  pub compacted-Backed :
      (file : Option Bytes)
      → length (collect_data s.store) < 2 ^ 32
      → file ≡ some (snapshot_bytes host (collect_data s.store) 0)
      → Backed host h.rs (update_all h.rs h.origin) file
  compacted-Backed file count e = record {
    saved = collect_data s.store;
    offset = 0;
    commits = inl e;
    saves = record {
      snapshot = Memory-IsSnapshot hash s.store _ 0 h.memory count (omega arith);
      point = record {
        covered = [];
        rest = h.rs;
        split = refl;
        covers = inl (refl, refl);
        base = Memory-collect_data hash s.store _ h.memory;
      };
    };
  }

  pub compact-Sound :
      (io : Io) (sio : SnapshotIo) (after : Store)
      → s.captured ≡ none
      → Fits s.store
      → compact_persistence host io sio s.store ≡ (ok true, after)
      → Sound hash host (record s { store = after })
  compact-Sound io sio after idle fits e =
      let (saved, rotated, has_wal, has_snapshot, shards) =
        compact-parts host io sio s.store h.wal h.files h.has_wal h.has_snapshot
          (ap (λ q. returned q.0) e) in
      let after_eq : (compact_persistence host io sio s.store).1 ≡ after = ap (λ q. q.1) e in
      let files = (Save.save_verified host sio (collect_data s.store) 0 h.files).1 in
      let w = (Truncate.rotate io h.wal).1 in
      let (holds, same, _) =
        rotate-Holds io h.wal h.holds.generation_fits h.holds.healthy rotated in
      let snapshot : IsSnapshot (collect_data s.store) 0 =
        Memory-IsSnapshot hash s.store _ 0 h.memory (fits.0) (omega arith) in
      let (_, committed) =
        save_verified-commits host sio (collect_data s.store) 0 h.files snapshot in
      record {
        wal = w;
        files = files;
        rs = [];
        origin = update_all h.rs h.origin;
        has_wal = subst (λ (t : Store). t.wal ≡ some w) after_eq has_wal;
        has_snapshot = subst (λ (t : Store). t.snapshot ≡ some files) after_eq has_snapshot;
        same_host = same ∙ h.same_host;
        holds = holds;
        room = omega arith;
        memory =
            Memory-shards hash s.store after _
              (subst (λ (t : Store). t.shards ≡ s.store.shards) after_eq shards) h.memory;
        backed = record {
          saved = collect_data s.store;
          offset = 0;
          commits = inl (committed saved);
          saves = record {
            snapshot = snapshot;
            point = record {
              covered = [];
              rest = [];
              split = refl;
              covers = inl (refl, refl);
              base = Memory-collect_data hash s.store _ h.memory;
            };
          };
        };
        flight = subst (Flight host [] (update_all h.rs h.origin)) (sym idle) tt;
      }
