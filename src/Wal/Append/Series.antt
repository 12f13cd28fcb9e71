-- ===== src/Wal/Append/Series.antt =====
-- Appends one after the other, by callers that go on after an exception.
use concurrent_kv_store.BinaryIo.{Endian}
use concurrent_kv_store.Base.{
  append_assoc, length-append, ◌∙◌, ap, sym, arith, append-nil, ◌<◌, ◌+◌, length, [], All, ◌∷◌,
  true, false, some, Error, ◌++◌, ◌≡◌, Result, List, refl, stuck, throws, ok, ◌⊎◌, inl, inr,
}
use concurrent_kv_store.Wal.Append
use concurrent_kv_store.Wal.Append.Crash.{
  Replays, Holds-Replays, part-Replays, failed-append_payload,
}
use concurrent_kv_store.Wal.Append.Atomic.{append_payload-outcome, Whole, Part}
use concurrent_kv_store.Wal.Append.Holds.{Holds}
use concurrent_kv_store.Wal.Record.Format.{IsStorable, payload_of}
use concurrent_kv_store.Wal.State.{Wal, Io}
use concurrent_kv_store.Wal.Types.{u64_max, ParsedRecord}
use mathlib.Core.Path.{subst}

-- A record whose append returned is acknowledged.
abbrev credit : Result (Unit {0}) → ParsedRecord → List ParsedRecord × Wal → List ParsedRecord × Wal
credit (ok _) r (acknowledged, w) = (r ∷ acknowledged, w)
credit (throws _) r p = p
credit stuck r p = p

-- The records whose append returned, and the log behind the calls.
unfoldable pub append_each : Endian → List (Io × ParsedRecord) → Wal → List ParsedRecord × Wal
append_each host [] w = ([], w)
append_each host ((io, r) ∷ calls) w =
    let (result, v) = Append.append_payload io (payload_of host true r) w in
    credit result r (append_each host calls v)

append_each-failed :
    (host : Endian) (calls : List (Io × ParsedRecord)) (w : Wal) (e : Error)
    → w.failure ≡ some e
    → append_each host calls w ≡ ([], w)
unfolding append_each
append_each-failed host [] w e f = refl
append_each-failed host ((io, r) ∷ calls) w e f =
    let (thrown, q) = failed-append_payload io w (payload_of host true r) e f in
    ap (λ (p : Result (Unit {0}) × Wal). credit p.0 r (append_each host calls p.1)) q
    ∙ append_each-failed host calls w e f

module _ (host : Endian) (io : Io) (r : ParsedRecord) (calls : List (Io × ParsedRecord))
    (w : Wal) where
  abbrev called : Result (Unit {0}) × Wal
  called = Append.append_payload io (payload_of host true r) w

  append_each-ok :
      called.0 ≡ ok tt
      → append_each host ((io, r) ∷ calls) w
        ≡ (r ∷ (append_each host calls called.1).0, (append_each host calls called.1).1)
  unfolding append_each
  append_each-ok e = ap (λ (x : Result (Unit {0})). credit x r (append_each host calls called.1)) e

  append_each-throws :
      (e : Error)
      → called.0 ≡ throws e
      → called.1.failure ≡ some e
      → append_each host ((io, r) ∷ calls) w ≡ ([], called.1)
  unfolding append_each
  append_each-throws e thrown kept =
      ap (λ (x : Result (Unit {0})). credit x r (append_each host calls called.1)) thrown
      ∙ append_each-failed host calls called.1 e kept

-- A record that some call appends.
abbrev pub Attempted : ParsedRecord → List (Io × ParsedRecord) → Type 0
Attempted r [] = ⊥
Attempted r ((io, s) ∷ calls) = (r ≡ s) ⊎ Attempted r calls

-- What replay finds behind the calls: the old records, the acknowledged ones, and at most one more.
abbrev pub Consistent :
    Endian → List ParsedRecord → List (Io × ParsedRecord) → List ParsedRecord × Wal → Type 0
Consistent host rs calls p =
    Replays host p.1.file (rs ++ p.0)
    ⊎ ((r : ParsedRecord) × Attempted r calls × Replays host p.1.file ((rs ++ p.0) ++ r ∷ []))

module _ (host : Endian) (rs : List ParsedRecord) (io : Io) (r : ParsedRecord)
    (calls : List (Io × ParsedRecord)) where
  Consistent-acknowledged :
      (q : List ParsedRecord × Wal)
      → Consistent host (rs ++ r ∷ []) calls q
      → Consistent host rs ((io, r) ∷ calls) (r ∷ q.0, q.1)
  Consistent-acknowledged q (inl found) =
      inl (subst (Replays host q.1.file) (append_assoc rs (r ∷ []) q.0) found)
  Consistent-acknowledged q (inr (s, attempted, found)) = inr (
    s,
    inr attempted,
    subst (λ (l : List ParsedRecord). Replays host q.1.file (l ++ s ∷ []))
        (append_assoc rs (r ∷ []) q.0) found,
  )

  Consistent-failed :
      (w : Wal)
      → Replays host w.file rs ⊎ Replays host w.file (rs ++ r ∷ [])
      → Consistent host rs ((io, r) ∷ calls) ([], w)
  Consistent-failed w (inl found) = inl (rw (append-nil rs) found)
  Consistent-failed w (inr found) = inr (r, inl refl, rw (append-nil rs) found)

-- Take a v3 log that holds the records rs behind a written header, and a series of appends of storable
-- records under a policy other than GroupCommit, with enough sequence numbers left. Whatever the system
-- and the fault hook answer to each append, a replay of the file behind them from offset zero applies
-- exactly rs and the acknowledged records in their order, or these and one further record, which one of
-- the calls attempted.
pub append_each-Consistent :
    (host : Endian) (calls : List (Io × ParsedRecord)) (w : Wal) (rs : List ParsedRecord)
    → Holds w rs
    → w.header_pending ≡ false
    → w.host ≡ host
    → All (λ (call : Io × ParsedRecord). IsStorable host true call.1) calls
    → length rs + length calls + 1 < u64_max
    → Consistent host rs calls (append_each host calls w)
unfolding append_each
append_each-Consistent host [] w rs h written same storable room = inl (
    rw (append-nil rs) (
      subst (λ (x : Endian). Replays x w.file rs) same
        (Holds-Replays w rs h written (omega arith))))
append_each-Consistent host ((io, r) ∷ calls) w rs h written same storable room =
    let p = Append.append_payload io (payload_of host true r) w in
    let outcome : Whole w rs r p ⊎ Part w r p =
      subst
        (λ (x : Endian).
          Whole w rs r (Append.append_payload io (payload_of x true r) w)
          ⊎ Part w r (Append.append_payload io (payload_of x true r) w))
        same
        (append_payload-outcome io w rs r h
          (subst (λ (x : Endian). IsStorable x true r) (sym same) (storable.0))
          (omega (arith, h.numbered))) in
    elim outcome [
      | inl (done, holds, header, host_eq) ↦
          let later =
            append_each-Consistent host calls p.1 (rs ++ r ∷ []) holds header (host_eq ∙ same)
              (storable.1) (omega (arith, length-append rs (r ∷ []))) in
          rw (append_each-ok host io r calls w done)
            (Consistent-acknowledged host rs io r calls (append_each host calls p.1) later)
      | inr (e, k, thrown, kept, file) ↦ rw (append_each-throws host io r calls w e thrown kept) (
          Consistent-failed host rs io r calls p.1 (
            subst (λ (x : Endian). Replays x p.1.file rs ⊎ Replays x p.1.file (rs ++ r ∷ [])) same
              (part-Replays io w rs r h written
                (subst (λ (x : Endian). IsStorable x true r) (sym same) (storable.0))
                (omega (arith, h.numbered)) k p.1.file file)))
    ]
