-- ===== src/System/Points.antt =====
-- What a snapshot says of a log: a point of its history.
use concurrent_kv_store.Base.{
  ℕ, ◌≡◌, ◌∙◌, inl, inr, List, [], ◌++◌, append_assoc, append-nil, length, refl, sym, ap, true,
  Bool-cases, arith, length-append,
}
use concurrent_kv_store.BinaryIo.{Endian}
use concurrent_kv_store.Maps.{Map}
use concurrent_kv_store.Wal.Append.Holds.{Holds}
use concurrent_kv_store.Wal.Append.Suffix.{Covers}
use concurrent_kv_store.Wal.Codec.{make_header}
use concurrent_kv_store.Wal.Codec.Header.{length-make_header}
use concurrent_kv_store.Wal.Replay.View.{
  update_all-SameView, View, view, update_all, update_all-append, SameView,
}
use concurrent_kv_store.Wal.Replay.Written.{log_bytes}
use concurrent_kv_store.Wal.State.{Wal}
use concurrent_kv_store.Wal.Types.{ParsedRecord}

-- The map is what the first records of the log made of the original data, and the offset covers those
-- records.
pub record Point (host : Endian) (rs : List ParsedRecord) (origin : View) (m : Map) (offset : ℕ)
    : Type 0 where
  pub covered : List ParsedRecord
  pub rest : List ParsedRecord
  pub split : rs ≡ covered ++ rest
  pub covers : Covers host offset covered
  pub base : SameView (view m) (update_all covered origin)

module _ (host : Endian) (rs : List ParsedRecord) (origin : View) (m : Map) where
  -- It stays one as the log grows.
  pub Point-later :
      (offset : ℕ) (ts : List ParsedRecord)
      → Point host rs origin m offset
      → Point host (rs ++ ts) origin m offset
  Point-later offset ts p = record {
    covered = p.covered;
    rest = p.rest ++ ts;
    split = ap (λ (l : List ParsedRecord). l ++ ts) p.split ∙ append_assoc p.covered p.rest ts;
    covers = p.covers;
    base = p.base;
  }

  -- The end of the log.
  pub Point-end :
      (w : Wal)
      → w.host ≡ host
      → Holds w rs
      → SameView (view m) (update_all rs origin)
      → Point host rs origin m (length w.file)
  unfolding log_bytes
  Point-end w same h base = record {
    covered = rs;
    rest = [];
    split = sym (append-nil rs);
    covers = elim (Bool-cases w.header_pending) [
      | inl pending ↦
          let none_yet = h.fresh pending in
          let empty : w.file ≡ [] = h.contents ∙ rw (pending, none_yet) refl in
          inl (ap length empty, none_yet)
      | inr written ↦
          let file_eq : w.file ≡ make_header w.generation ++ log_bytes host true 1 rs =
            h.contents ∙ rw (written, same) refl in
          inr (
            omega (
              arith,
              ap length file_eq,
              length-append (make_header w.generation) (log_bytes host true 1 rs),
              length-make_header w.generation,
            ))
    ];
    base = base;
  }

  -- Records behind the point turn its map into the memory.
  pub Point-memory :
      (offset : ℕ) (p : Point host rs origin m offset)
      → SameView (update_all p.rest (view m)) (update_all rs origin)
  Point-memory offset p key =
      let e : update_all (p.covered ++ p.rest) origin
          ≡ update_all p.rest (update_all p.covered origin) =
        update_all-append p.covered p.rest origin in
      update_all-SameView p.rest (view m) (update_all p.covered origin) p.base key
      ∙ ap (λ (v : View). v key) (sym e)
      ∙ ap (λ (l : List ParsedRecord). update_all l origin key) (sym p.split)
