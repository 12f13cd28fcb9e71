-- ===== src/Wal/Append/Kept.antt =====
-- `AppendPayload` on a log after an append of it that threw.
use concurrent_kv_store.Base.{
  wal_requires_recovery, ◌||◌, true, not, inr, le→ltb, Bool-cases, Option-cases, inl, Bool, some, ℕ,
  ◌+◌, ◌≤◌, ◌≡◌, ◌⊎◌, ◌∙◌, List, [], ◌∷◌, Bytes, Error, Result, ok, throws, length, arith, refl, ap,
}
use concurrent_kv_store.Base.Results
use concurrent_kv_store.Base.{false, stuck}
use mathlib.Core.Path.{subst}
use concurrent_kv_store.Wal.Append
use concurrent_kv_store.Wal.Append.Crash.{prepare-cases}
use concurrent_kv_store.Wal.Record.Payload.{checked_record_length, sequence_bytes}
use concurrent_kv_store.Wal.State.{Wal, Io}
use concurrent_kv_store.Wal.Types.{max_record_length}

-- A payload within the limit on the length of a record, be the log in v3 or legacy v2.
abbrev pub FitsRecord : Bytes → Type 0
FitsRecord payload = length payload + 8 ≤ max_record_length

-- The log behind some calls, whatever they answer.
abbrev pub append_all : List (Io × Bytes) → Wal → Wal
append_all [] w = w
append_all ((io, payload) ∷ calls) w = append_all calls (Append.append_payload io payload w).1

-- The guards of the next append throw.
abbrev Blocked : Error → Wal → Type 0
Blocked e w = Append.check_appendable w ≡ (throws e, w)

check-cases : (w : Wal) → (Append.check_appendable w ≡ (ok tt, w)) ⊎ ((e : Error) × Blocked e w)
unfolding Append.check_appendable
check-cases w = elim (Option-cases w.failure) [
  | inl f ↦ elim (Bool-cases (not w.format_valid || w.needs_recovery)) [
    | inl closed ↦ inr (wal_requires_recovery, rw f (rw closed refl))
    | inr open_log ↦ inl (rw f (rw open_log refl))
  ]
  | inr f ↦ inr (f.0, rw (f.1) refl)
]

check-kept : (w : Wal) (e : Error) → w.failure ≡ some e → Blocked e w
unfolding Append.check_appendable
check-kept w e f = ground (arith, f)

checked-fits :
    (legacy : Bool) (n : ℕ)
    → n + 8 ≤ max_record_length
    → checked_record_length (n + sequence_bytes legacy) ≡ ok (n + sequence_bytes legacy)
unfolding checked_record_length
checked-fits true n fits = rw (le→ltb max_record_length (n + 0) (omega arith)) refl
checked-fits false n fits = rw (le→ltb max_record_length (n + 8) (omega arith)) refl

framed :
    (size : Result ℕ) (n : ℕ) (f : ℕ → Bytes)
    → size ≡ ok n
    → (frame : Bytes) × (Results.◌>>=◌ size (λ size. ok (f size)) ≡ ok frame)
framed size n f e = (f n, rw e refl)

prepare-fits :
    (w : Wal) (payload : Bytes)
    → FitsRecord payload
    → (frame : Bytes) × (Append.prepare_frame w.host w.legacy_v2 payload ≡ ok frame)
unfolding Append.prepare_frame
prepare-fits w payload fits = framed _ _ _ (checked-fits w.legacy_v2 (length payload) fits)

-- What the guarded part of the call throws is kept.
keep-Blocked :
    (p : Result (Unit {0}) × Wal) (e : Error)
    → (Append.keep_failure p).0 ≡ throws e
    → Blocked e (Append.keep_failure p).1
keep-Blocked (ok a, w) e h = cc
keep-Blocked (throws d, w) e h = check-kept (record w { failure = some d }) e cc
keep-Blocked (stuck, w) e h = cc

thrown-Blocked :
    (io : Io) (w : Wal) (payload : Bytes) (e : Error)
    → FitsRecord payload
    → (Append.append_payload io payload w).0 ≡ throws e
    → Blocked e (Append.append_payload io payload w).1
unfolding Append.append_payload
thrown-Blocked io w payload e fits h =
    let (frame, prepared) = prepare-fits w payload fits in
    elim (check-cases w) [
      | inl passed ↦ rw (prepared, passed) (keep-Blocked _ e (rw (prepared, passed) at h))
      | inr (d, blocked) ↦
          rw (prepared, blocked)
            (let thrown : throws d ≡ throws e = rw (prepared, blocked) at h in
              let same : d ≡ e = cc in subst (λ (d : Error). Blocked d w) same blocked)
    ]

-- A call on a blocked log.
Blocked-append :
    (io : Io) (w : Wal) (payload : Bytes) (e : Error)
    → Blocked e w
    → (Append.append_payload io payload w).1 ≡ w
unfolding Append.append_payload
Blocked-append io w payload e h = elim (prepare-cases w.host w.legacy_v2 payload) [
  | inl p ↦ rw (p.1) (rw h refl)
  | inr p ↦ rw (p.1) refl
]

Blocked-throws :
    (io : Io) (w : Wal) (payload : Bytes) (e : Error)
    → Blocked e w
    → FitsRecord payload
    → Append.append_payload io payload w ≡ (throws e, w)
unfolding Append.append_payload
Blocked-throws io w payload e h fits =
    let (frame, prepared) = prepare-fits w payload fits in rw prepared (rw h refl)

append_all-Blocked :
    (calls : List (Io × Bytes)) (w : Wal) (e : Error) → Blocked e w → append_all calls w ≡ w
append_all-Blocked [] w e h = refl
append_all-Blocked ((io, payload) ∷ calls) w e h =
    ap (append_all calls) (Blocked-append io w payload e h) ∙ append_all-Blocked calls w e h

-- On the path that AppendPayload takes under a policy other than GroupCommit, let an append throw e on
-- any log, in v3 or legacy v2, be it fresh, failed, waiting for recovery or of an invalid format, and
-- whatever the system and the fault hook answer, with a payload that leaves room for a sequence number
-- within the limit on a record. Then any appends that follow, of payloads of any length, leave the log,
-- its file included, as that append left it, and an append behind them of a payload within the limit
-- throws the same e.
pub append_payload-keeps :
    (io : Io) (w : Wal) (payload : Bytes) (e : Error)
    → FitsRecord payload
    → (Append.append_payload io payload w).0 ≡ throws e
    → (calls : List (Io × Bytes)) (later : Io) (next : Bytes) → FitsRecord next
    → let v = (Append.append_payload io payload w).1 in
      (append_all calls v ≡ v)
      × (Append.append_payload later next (append_all calls v) ≡ (throws e, v))
append_payload-keeps io w payload e fits thrown calls later next next_fits =
    let v = (Append.append_payload io payload w).1 in
    let blocked = thrown-Blocked io w payload e fits thrown in
    let same = append_all-Blocked calls v e blocked in
    (
      same,
      ap (Append.append_payload later next) same ∙ Blocked-throws later v next e blocked next_fits,
    )
