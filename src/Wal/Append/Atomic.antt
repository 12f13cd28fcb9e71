-- ===== src/Wal/Append/Atomic.antt =====
-- `AppendPayload` under any answers of the system and the fault hook.
use concurrent_kv_store.Wal.Record.RoundTrip.{length-op_payload, length-record_bytes}
use concurrent_kv_store.Wal.Append.Framing.{prepare_frame-ok}
use concurrent_kv_store.Wal.Record.Format.{payload_of, IsStorable}
use Prim.Native.Nat.{min}
use concurrent_kv_store.Wal.Codec.{make_header}
use concurrent_kv_store.Wal.Replay.Written.{frame_bytes}
use concurrent_kv_store.Wal.Append.{keep_failure, torn, whole}
use concurrent_kv_store.Base.{
  sym, ◌≤◌, some, ◌∷◌, Result, [], if◌then◌else◌, arith, Bool, refl, append_assoc, Bytes, ap, ◌+◌,
  length, Bool-cases, ◌∙◌, wal_header_write_failed, take, ◌++◌, throws, inr, Error, ◌⊎◌, inl, ok,
  true, false, ℕ, ◌≡◌, ◌<◌, List,
}
use concurrent_kv_store.Wal.Append
use concurrent_kv_store.Wal.Append.Holds.{
  appended-Holds, with_header-Holds, with_header-pending, with_header-written, Holds, with_header,
  appended,
}
use concurrent_kv_store.Wal.Append.Outcome.{
  take_behind, take_short, write-cases, frame_call, frame_call-cases, to_write,
}
use concurrent_kv_store.Wal.State.{Wal, Io}
use concurrent_kv_store.Wal.Types.{max_record_length, u64_max, ParsedRecord, WalStats}

module _ (io : Io) (w : Wal) (rs : List ParsedRecord) (r : ParsedRecord) (h : Holds w rs)
    (room : w.next_sequence < u64_max) where
  abbrev BodyEnds : Type 0
  BodyEnds =
      ((stats : WalStats) × (frame_call io w r w ≡ (ok tt, appended (with_header w) r stats)))
      ⊎ ((e : Error) × (k : ℕ) × (frame_call io w r w).0 ≡ throws e
          × (frame_call io w r w).1.file ≡ w.file ++ take k (to_write w r))

  header_written : w.header_pending ≡ false → BodyEnds
  header_written written = elim (frame_call-cases io w r h.v3 h.open_stream room written) [
    | inl d ↦ inl (d.0, rw (with_header-written w written) (d.1))
    | inr f ↦ inr (
      f.0,
      f.1,
      f.2,
      f.3
          ∙ ap
              (λ (b : Bool).
                w.file
                ++ take f.1 (
                    (if b then make_header w.generation else [])
                    ++ frame_bytes w.host true w.next_sequence r))
              (sym written),
    )
  ]

  ensure_torn :
      (n : ℕ)
      → w.header_pending ≡ true
      → io.header_write ≡ torn n
      → Append.ensure_header_locked io w ≡ (
        throws wal_header_write_failed,
        record w { file = w.file ++ take n (make_header w.generation); output_good = false },
      )
  unfolding Append.ensure_header_locked Append.write_output
  ensure_torn n pending t = ground (arith, h.v3, h.open_stream)

  header_torn : (n : ℕ) → w.header_pending ≡ true → io.header_write ≡ torn n → BodyEnds
  unfolding Append.write_frame_locked
  header_torn n pending t = inr (
    wal_header_write_failed,
    min n (length (make_header w.generation)),
    rw (ensure_torn n pending t) refl,
    rw (ensure_torn n pending t) (
        ap (λ (l : Bytes). w.file ++ l)
          (take_short (make_header w.generation) (frame_bytes w.host true w.next_sequence r) n)
        ∙ ap
            (λ (b : Bool).
              w.file
              ++ take (min n (length (make_header w.generation))) (
                  (if b then make_header w.generation else [])
                  ++ frame_bytes w.host true w.next_sequence r))
            (sym pending)),
  )

  abbrev v : Wal
  v = record w { file = w.file ++ make_header w.generation; header_pending = false }

  ensure_whole :
      w.header_pending ≡ true
      → io.header_write ≡ whole
      → Append.ensure_header_locked io w ≡ (ok tt, v)
  unfolding Append.ensure_header_locked Append.write_output
  ensure_whole pending t = ground (arith, h.v3, h.open_stream)

  ensure_again : Append.ensure_header_locked io v ≡ (ok tt, v)
  unfolding Append.ensure_header_locked
  ensure_again = ground (arith, h.v3)

  header_first :
      w.header_pending ≡ true → io.header_write ≡ whole → frame_call io w r w ≡ frame_call io v r v
  unfolding Append.write_frame_locked
  header_first pending t = rw (ensure_whole pending t) (rw ensure_again refl)

  after_header :
      (n : ℕ)
      → w.header_pending ≡ true
      → v.file ++ take n (frame_bytes w.host true w.next_sequence r)
        ≡ w.file ++ take (length (make_header w.generation) + n) (to_write w r)
  after_header n pending = rw pending (
      append_assoc w.file (make_header w.generation) _
      ∙ ap (λ (l : Bytes). w.file ++ l)
          (take_behind (make_header w.generation) (frame_bytes w.host true w.next_sequence r) n))

  header_whole : w.header_pending ≡ true → io.header_write ≡ whole → BodyEnds
  header_whole pending t = elim (frame_call-cases io v r h.v3 h.open_stream room refl) [
    | inl d ↦ inl (d.0, header_first pending t ∙ d.1 ∙ rw (with_header-pending w pending) refl)
    | inr f ↦ inr (
      f.0,
      length (make_header w.generation) + f.1,
      rw (header_first pending t) (f.2),
      rw (header_first pending t) (f.3 ∙ after_header f.1 pending),
    )
  ]

  body-cases : BodyEnds
  body-cases = elim (Bool-cases w.header_pending) [
    | inr written ↦ header_written written
    | inl pending ↦ elim (write-cases io.header_write) [
      | inl t ↦ header_whole pending t
      | inr t ↦ header_torn t.0 pending t.1
    ]
  ]

-- What an append makes of the log: it took the record, or it failed for good.
abbrev pub Whole : Wal → List ParsedRecord → ParsedRecord → Result (Unit {0}) × Wal → Type 0
Whole w rs r p =
    (p.0 ≡ ok tt) × Holds p.1 (rs ++ r ∷ []) × (p.1.header_pending ≡ false) × (p.1.host ≡ w.host)

abbrev pub Part : Wal → ParsedRecord → Result (Unit {0}) × Wal → Type 0
Part w r p =
    (e : Error) × (k : ℕ) × (p.0 ≡ throws e)
    × (p.1.failure ≡ some e)
    × (p.1.file ≡ w.file ++ take k (to_write w r))

kept :
    (p : Result (Unit {0}) × Wal) (e : Error)
    → p.0 ≡ throws e
    → keep_failure p ≡ (throws e, record p.1 { failure = some e })
kept (x, v) e q = rw q refl

append_payload-body :
    (io : Io) (w : Wal) (rs : List ParsedRecord) (r : ParsedRecord)
    → Holds w rs
    → length (payload_of w.host true r) + 8 ≤ max_record_length
    → Append.append_payload io (payload_of w.host true r) w ≡ keep_failure (frame_call io w r w)
unfolding Append.append_payload Append.check_appendable
append_payload-body io w rs r h fits = rw (h.v3) (
    rw (prepare_frame-ok w.host (payload_of w.host true r) fits)
      (rw (h.healthy) (rw (h.valid) (rw (h.recovered) refl))))

with_header-host : (w : Wal) → (with_header w).host ≡ w.host
with_header-host w = elim (Bool-cases w.header_pending) [
  | inl pending ↦ rw (with_header-pending w pending) refl
  | inr written ↦ rw (with_header-written w written) refl
]

with_header-IsStorable :
    (w : Wal) (r : ParsedRecord) → IsStorable w.host true r → IsStorable (with_header w).host true r
with_header-IsStorable w r s = elim (Bool-cases w.header_pending) [
  | inl pending ↦ rw (with_header-pending w pending) s
  | inr written ↦ rw (with_header-written w written) s
]

-- On the path that AppendPayload takes under a policy other than GroupCommit, and whatever the system
-- and the fault hook answer, appending the payload of a storable record r to a v3 log that holds the
-- records rs and has a sequence number left either returns, and then the log holds rs followed by r
-- behind a written header, or throws an exception that is kept as the failure of the log, and then the
-- file is the old one followed by a first part of the header, if it was not yet written, and the frame
-- of r.
pub append_payload-outcome :
    (io : Io) (w : Wal) (rs : List ParsedRecord) (r : ParsedRecord)
    → Holds w rs
    → IsStorable w.host true r
    → w.next_sequence < u64_max
    → let p = Append.append_payload io (payload_of w.host true r) w in Whole w rs r p ⊎ Part w r p
unfolding payload_of
append_payload-outcome io w rs r h storable room =
    let size : length (payload_of w.host true r) + 8 ≤ max_record_length = omega (
      arith,
      storable.fits,
      length-record_bytes w.host true 0 r,
      length-op_payload w.host true r.op r.key r.value,
    ) in
    let called = append_payload-body io w rs r h size in
    let ready = with_header-Holds w rs h in
    rw called (elim (body-cases io w rs r h room) [
      | inl d ↦ inl (
        rw (d.1) refl,
        rw (d.1) (
            appended-Holds (with_header w) rs r d.0 (ready.0) (ready.1)
              (with_header-IsStorable w r storable)),
        rw (d.1) (ready.1),
        rw (d.1) (with_header-host w),
      )
      | inr f ↦
          let e = kept (frame_call io w r w) f.0 f.2 in
          inr (f.0, f.1, rw e refl, rw e refl, rw e (f.3))
    ])
