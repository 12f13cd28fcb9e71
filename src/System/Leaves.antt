-- ===== src/System/Leaves.antt =====
-- How a SET or a DELETE ends, on the disk.
use concurrent_kv_store.Wal.Append.{append_delete, append_set}
use concurrent_kv_store.System.Calls.{delete-leaves, set-leaves}
use concurrent_kv_store.Snapshot.Types.{Files}
use concurrent_kv_store.Store.Data.{delete, set, get}
use concurrent_kv_store.Store.State.{Store}
use concurrent_kv_store.System.{System}
use concurrent_kv_store.Wal.Append.Call.{
  append_delete-Ends, append_set-Ends, delete_record, set_record, Ends,
}
use concurrent_kv_store.Base.{
  some, sym, returned, Result, ℕ, ◌≡◌, ◌∙◌, ◌<◌, inl, inr, Bytes, ◌++◌, take, true,
}
use concurrent_kv_store.BinaryIo.{Endian}
use concurrent_kv_store.Main.Recovery.{Restores, Restores-SameView}
use concurrent_kv_store.System.Sound.{Sound, Backed-Restores, Backed}
use concurrent_kv_store.Wal.Append.Outcome.{to_write}
use concurrent_kv_store.Wal.Record.Format.{IsStorable}
use concurrent_kv_store.Wal.Replay.View.{SameView, View, update, update_all}
use concurrent_kv_store.Wal.State.{Io, Wal}
use concurrent_kv_store.Wal.Types.{ParsedRecord, u64_max}
use mathlib.Core.Path.{subst}
use concurrent_kv_store.System.Crash.{
  EndsWell, RestoresEither, EndsWell-SameView, RestoresEither-SameView, Ends-Restores, cut-Restores,
}

module _ (hash : Bytes → ℕ) (host : Endian) (s : System) (h : Sound hash host s) where
  -- What `Get` answers.
  abbrev pub memory_of : Store → View
  memory_of st = λ key. get hash key st

  abbrev w : Wal
  w = h.wal

  backed : Backed w.host h.rs h.origin h.files.committed
  backed =
      subst (λ (host : Endian). Backed host h.rs h.origin h.files.committed) (sym h.same_host)
        h.backed

  recorded : SameView (update_all h.rs h.origin) (memory_of s.store)
  recorded key = sym (h.memory.same key)

  -- How a call on the log ends, as the files of the store tell.
  Ends-EndsWell :
      (r : ParsedRecord) (q : Result (Unit {0}) × Wal)
      → w.next_sequence < u64_max
      → Ends w h.rs r q
      → EndsWell hash host h.files.committed
          (returned q.0)
          q.1.file
          (memory_of s.store)
          (update r (memory_of s.store))
  Ends-EndsWell r q room ends =
      EndsWell-SameView hash host h.files.committed q.1.file _ (memory_of s.store) r recorded
        (returned q.0)
        (subst
          (λ (host : Endian).
            EndsWell hash host h.files.committed (returned q.0) q.1.file (update_all h.rs h.origin)
              (update r (update_all h.rs h.origin)))
          h.same_host
          (Ends-Restores hash w h.rs h.origin h.files.committed backed h.holds r room q ends))

  untouched : Restores hash host h.files.committed w.file (memory_of s.store)
  untouched =
      subst (λ (host : Endian). Restores hash host h.files.committed w.file (memory_of s.store))
        h.same_host
        (Restores-SameView hash w.host h.files.committed w.file _ (memory_of s.store) recorded
          (Backed-Restores hash w h.rs h.origin h.files.committed backed h.holds h.room))

  -- What a call left of the store, and how it ended.
  abbrev pub Leaves : {A : Type 0} → Result A × Store → ParsedRecord → Type 0
  Leaves (result, after) r =
      (v : Wal) × (files : Files) × (after.wal ≡ some v)
      × (after.snapshot ≡ some files)
      × EndsWell hash host files.committed (returned result) v.file (memory_of s.store)
          (update r (memory_of s.store))

  pub set-Leaves :
      (io : Io) (key value : Bytes)
      → w.next_sequence < u64_max
      → Leaves (set hash io key value s.store) (set_record key value)
  set-Leaves io key value room =
      let (snapshot_eq, ends) = set-leaves hash io key value s.store w h.has_wal in
      elim ends [
        | inl (same, failed) ↦
            (w, h.files, same, snapshot_eq ∙ h.has_snapshot, inr (failed, inl untouched))
        | inr (called, result_eq) ↦ (
          (append_set io key value w).1,
          h.files,
          called,
          snapshot_eq ∙ h.has_snapshot,
          rw result_eq (
              Ends-EndsWell (set_record key value) (append_set io key value w) room
                (append_set-Ends io w h.rs h.holds room key value)),
        )
      ]

  pub delete-Leaves :
      (io : Io) (key : Bytes)
      → w.next_sequence < u64_max
      → Leaves (delete hash io key s.store) (delete_record key)
  delete-Leaves io key room =
      let (snapshot_eq, ends) = delete-leaves hash io key s.store w h.has_wal in
      elim ends [
        | inl (same, failed) ↦
            (w, h.files, same, snapshot_eq ∙ h.has_snapshot, inr (failed, inl untouched))
        | inr (called, result_eq) ↦ (
          (append_delete io key w).1,
          h.files,
          called,
          snapshot_eq ∙ h.has_snapshot,
          rw result_eq (
              Ends-EndsWell (delete_record key) (append_delete io key w) room
                (append_delete-Ends io w h.rs h.holds room key)),
        )
      ]

  pub cut-Leaves :
      (r : ParsedRecord) (k : ℕ) (file : Bytes)
      → IsStorable w.host true r
      → w.next_sequence < u64_max
      → file ≡ w.file ++ take k (to_write w r)
      → RestoresEither hash host h.files.committed file
          (memory_of s.store)
          (update r (memory_of s.store))
  cut-Leaves r k file storable room e =
      RestoresEither-SameView hash host h.files.committed file _ (memory_of s.store) r recorded (
        subst
          (λ (host : Endian).
            RestoresEither hash host h.files.committed file (update_all h.rs h.origin)
              (update r (update_all h.rs h.origin)))
          h.same_host
          (cut-Restores hash w h.rs h.origin h.files.committed backed h.holds r storable room k file
            e))
