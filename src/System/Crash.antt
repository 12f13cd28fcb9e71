-- ===== src/System/Crash.antt =====
-- What the files restore when a call is cut off.
use concurrent_kv_store.Wal.Append.Atomic.{Whole}
use concurrent_kv_store.Wal.Append.Call.{Ends}
use concurrent_kv_store.Base.{
  length-append, sym, returned, arith, length, ◌+◌, Result, false, Bool, ℕ, ◌≡◌, ◌∙◌, ◌<◌, ◌⊎◌, inl,
  inr, Bytes, List, [], ◌∷◌, ◌++◌, ap, take, true, Option,
}
use concurrent_kv_store.BinaryIo.{Endian}
use concurrent_kv_store.Main.Recovery.{Restores, Restores-SameView, recover-get}
use concurrent_kv_store.System.Points.{Point-memory}
use concurrent_kv_store.System.Sound.{Backed-Restores, Backed}
use concurrent_kv_store.Wal.Append.Holds.{Holds}
use concurrent_kv_store.Wal.Append.Outcome.{to_write}
use concurrent_kv_store.Wal.Append.Partial.{part-ReplaysFrom}
use concurrent_kv_store.Wal.Record.Format.{IsStorable}
use concurrent_kv_store.Wal.Replay.View.{
  SameView, View, view, update, update_all, update_all-append, update-SameView,
}
use concurrent_kv_store.Wal.State.{Wal}
use concurrent_kv_store.System.Writes.{Backed-later}
use concurrent_kv_store.Wal.Types.{ParsedRecord, u64_max}
use mathlib.Core.Path.{subst}

-- The files restore one view or the other.
abbrev pub RestoresEither : (Bytes → ℕ) → Endian → Option Bytes → Bytes → View → View → Type 0
RestoresEither hash host committed file before after =
    Restores hash host committed file before ⊎ Restores hash host committed file after

module _ (hash : Bytes → ℕ) (w : Wal) (rs : List ParsedRecord) (origin : View)
    (committed : Option Bytes) (b : Backed w.host rs origin committed) (h : Holds w rs)
    (r : ParsedRecord) (storable : IsStorable w.host true r)
    (room : w.next_sequence < u64_max) where
  pub cut-Restores :
      (k : ℕ) (file : Bytes)
      → file ≡ w.file ++ take k (to_write w r)
      → RestoresEither hash w.host committed file
          (update_all rs origin)
          (update r (update_all rs origin))
  cut-Restores k file e =
      let p = b.saves.point in
      let memory = Point-memory w.host rs origin b.saved b.offset p in
      elim (part-ReplaysFrom w p.covered p.rest b.offset r (subst (Holds w) p.split h) p.covers
        b.saves.snapshot.bound storable room k file e) [
          | inl replays ↦ inl (
              Restores-SameView hash w.host committed file _ (update_all rs origin) memory (
                recover-get hash w.host committed file b.saved b.offset p.rest b.saves.snapshot
                  b.commits replays))
          | inr replays ↦ inr (
              Restores-SameView hash w.host committed file _ (update r (update_all rs origin))
                (λ key.
                  ap (λ (v : View). v key) (update_all-append p.rest (r ∷ []) (view b.saved))
                  ∙ update-SameView r (update_all p.rest (view b.saved)) (update_all rs origin)
                      memory key)
                (recover-get hash w.host committed file b.saved b.offset (p.rest ++ r ∷ [])
                  b.saves.snapshot b.commits replays))
        ]

-- A call that returned took effect for good; one that threw took effect or did not.
abbrev pub EndsWell : (Bytes → ℕ) → Endian → Option Bytes → Bool → Bytes → View → View → Type 0
EndsWell hash host committed done file before after =
    ((done ≡ true) × Restores hash host committed file after)
    ⊎ ((done ≡ false) × RestoresEither hash host committed file before after)

module _ (hash : Bytes → ℕ) (w : Wal) (rs : List ParsedRecord) (origin : View)
    (committed : Option Bytes) (b : Backed w.host rs origin committed) (h : Holds w rs)
    (r : ParsedRecord) (room : w.next_sequence < u64_max) where
  abbrev old : View
  old = update_all rs origin

  few : 1 + length rs < u64_max
  few = omega (arith, h.numbered, room)

  Whole-Restores :
      (q : Result (Unit {0}) × Wal)
      → Whole w rs r q
      → Restores hash w.host committed q.1.file (update r old)
  Whole-Restores q (done, holds, written, same) =
      let later : Backed q.1.host (rs ++ r ∷ []) origin committed =
        rw same (Backed-later w.host rs origin r committed b) in
      subst (λ (host : Endian). Restores hash host committed q.1.file (update r old)) same
        (Restores-SameView hash q.1.host committed q.1.file _ (update r old)
          (λ key. ap (λ (v : View). v key) (update_all-append rs (r ∷ []) origin))
          (Backed-Restores hash q.1 (rs ++ r ∷ []) origin committed later holds
            (omega (arith, few, length-append rs (r ∷ [])))))

  pub Ends-Restores :
      (q : Result (Unit {0}) × Wal)
      → Ends w rs r q
      → EndsWell hash w.host committed (returned q.0) q.1.file old (update r old)
  Ends-Restores q ends = elim ends [
    | inl (failed, same) ↦ inr (
      failed,
      inl (
          subst (λ (v : Wal). Restores hash w.host committed v.file old) (sym same)
            (Backed-Restores hash w rs origin committed b h (omega (arith, few)))),
    )
    | inr (storable, inl took) ↦ inl (ap returned (took.0), Whole-Restores q took)
    | inr (storable, inr part) ↦ inr (
      ap returned (part.2),
      cut-Restores hash w rs origin committed b h r storable room (part.1) q.1.file (part.4),
    )
  ]

module _ (hash : Bytes → ℕ) (host : Endian) (committed : Option Bytes) (file : Bytes) (a b : View)
    (r : ParsedRecord) (same : SameView a b) where
  pub RestoresEither-SameView :
      RestoresEither hash host committed file a (update r a)
      → RestoresEither hash host committed file b (update r b)
  RestoresEither-SameView e = elim e [
    | inl before ↦ inl (Restores-SameView hash host committed file a b same before)
    | inr after ↦ inr (
        Restores-SameView hash host committed file (update r a) (update r b)
          (update-SameView r a b same) after)
  ]

  pub EndsWell-SameView :
      (done : Bool)
      → EndsWell hash host committed done file a (update r a)
      → EndsWell hash host committed done file b (update r b)
  EndsWell-SameView done e = elim e [
    | inl (d, after) ↦ inl (
      d,
      Restores-SameView hash host committed file (update r a) (update r b)
          (update-SameView r a b same) after,
    )
    | inr (d, either) ↦ inr (d, RestoresEither-SameView either)
  ]
