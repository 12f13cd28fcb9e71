-- ===== src/Wal/Append/Crash.antt =====
-- Replay of the file that an append leaves.
use concurrent_kv_store.Wal.Record.Payload.{sequence_bytes, checked_record_length}
use concurrent_kv_store.Wal.Record.RoundTrip.{length-op_payload, length-record_bytes}
use concurrent_kv_store.Wal.Codec.{make_header}
use concurrent_kv_store.Maps.{Map}
use concurrent_kv_store.BinaryIo.{Endian}
use concurrent_kv_store.Base.{
  All-append, length-append, ltb→le, take_all, if◌then◌else◌, wal_record_too_large, ltb→lt, ltb,
  Bool-cases, inr, append_assoc, inl, Bool, throws, Error, ◌⊎◌, Result, sym, append-nil, Bytes, ap,
  ◌∙◌, take, All, ◌+◌, arith, [], length, ok, ◌∷◌, ◌++◌, some, ◌≤◌, false, true, ◌≡◌, ◌<◌, List, ℕ,
  refl,
}
use concurrent_kv_store.Base.Results
use concurrent_kv_store.Wal.Append
use concurrent_kv_store.Wal.Append.Holds.{Holds}
use concurrent_kv_store.Wal.Append.Outcome.{to_write}
use concurrent_kv_store.Wal.Record.Format.{IsStorable}
use concurrent_kv_store.Wal.Replay.{replay_from_detailed}
use concurrent_kv_store.Wal.Replay.Recovery.{replay-cut_log}
use concurrent_kv_store.Wal.Replay.Written.{
  length-frame_bytes, log_bytes-append, apply_all, log_bytes, frame_bytes,
}
use concurrent_kv_store.Wal.State.{Wal, Io}
use concurrent_kv_store.Wal.Types.{
  max_record_length, delete, u64_max, ParsedRecord, WalReplayResult,
}

-- Replay of the file from its start applies exactly the records `rs`.
abbrev pub Replays : Endian → Bytes → List ParsedRecord → Type 0
Replays host file rs =
    (store : Map)
    → (result : WalReplayResult) × (replay_from_detailed host (some file) 0 store
        ≡ ok (result, apply_all rs store))

-- Frames and a first part of the next one.
Replays-cut :
    (host : Endian) (generation : ℕ) (rs : List ParsedRecord) (r : ParsedRecord) (k : ℕ)
    → 0 < generation
    → generation ≤ u64_max
    → length rs < u64_max
    → All (IsStorable host true) rs
    → IsStorable host true r
    → k < length (frame_bytes host true (1 + length rs) r)
    → Replays host
        (make_header generation
          ++ (log_bytes host true 1 rs ++ take k (frame_bytes host true (1 + length rs) r)))
        rs
Replays-cut host generation rs r k h g n s storable cut store =
    let (result, e, recovered) = replay-cut_log host generation rs k _ store h g n s (record {
      written = r;
      sequence = 1 + length rs;
      sequence_fits = omega arith;
      storable = storable;
      cut = cut;
      tail_eq = refl;
    }) in
    (result, e)

pub log-one :
    (host : Endian) (rs : List ParsedRecord) (r : ParsedRecord)
    → log_bytes host true 1 (rs ++ r ∷ [])
      ≡ log_bytes host true 1 rs ++ frame_bytes host true (1 + length rs) r
unfolding log_bytes
log-one host rs r =
    log_bytes-append host true 1 rs (r ∷ [])
    ∙ ap (λ (l : Bytes). log_bytes host true 1 rs ++ l) (append-nil _)

-- A record that fits every log.
abbrev pub tombstone : ParsedRecord
tombstone = record { op = delete; key = []; value = [] }

pub tombstone-IsStorable : (host : Endian) → IsStorable host true tombstone
tombstone-IsStorable host = record {
  canonical = refl;
  fits =
      omega (
        arith,
        length-record_bytes host true 0 tombstone,
        length-op_payload host true delete [] [],
      );
}

pub frame_pos : (host : Endian) (n : ℕ) (r : ParsedRecord) → 0 < length (frame_bytes host true n r)
frame_pos host n r = omega (arith, length-frame_bytes host true n r)

Replays-whole :
    (host : Endian) (generation : ℕ) (rs : List ParsedRecord)
    → 0 < generation
    → generation ≤ u64_max
    → length rs < u64_max
    → All (IsStorable host true) rs
    → Replays host (make_header generation ++ log_bytes host true 1 rs) rs
Replays-whole host generation rs h g n s store =
    let (result, e) =
      Replays-cut host generation rs tombstone 0 h g n s (tombstone-IsStorable host)
        (frame_pos host (1 + length rs) tombstone) store in
    (
      result,
      ap (λ (l : Bytes). replay_from_detailed host (some (make_header generation ++ l)) 0 store)
            (sym (append-nil (log_bytes host true 1 rs)))
          ∙ e,
    )

pub Holds-Replays :
    (w : Wal) (rs : List ParsedRecord)
    → Holds w rs
    → w.header_pending ≡ false
    → length rs < u64_max
    → Replays w.host w.file rs
Holds-Replays w rs h written room store =
    let (result, e) =
      Replays-whole w.host w.generation rs h.generation_pos h.generation_fits room h.storable
        store in
    (
      result,
      ap (λ (l : Bytes). replay_from_detailed w.host (some l) 0 store)
            (h.contents ∙ rw written refl)
          ∙ e,
    )

checked-cases :
    (large : Bool) (n : ℕ) (error : Error) (f : ℕ → Bytes)
    → let checked : Result Bytes =
        Results.◌>>=◌ (if large then throws error else ok n) (λ size. ok (f size)) in
      ((frame : Bytes) × (checked ≡ ok frame)) ⊎ ((e : Error) × (checked ≡ throws e))
checked-cases true n error f = inr (error, refl)
checked-cases false n error f = inl (f n, refl)

pub prepare-cases :
    (host : Endian) (legacy : Bool) (payload : Bytes)
    → ((frame : Bytes) × (Append.prepare_frame host legacy payload ≡ ok frame))
      ⊎ ((e : Error) × (Append.prepare_frame host legacy payload ≡ throws e))
unfolding Append.prepare_frame checked_record_length
prepare-cases host legacy payload =
    let n = length payload + sequence_bytes legacy in
    checked-cases (ltb max_record_length n) n wal_record_too_large _

check-failed :
    (w : Wal) (e : Error) → w.failure ≡ some e → Append.check_appendable w ≡ (throws e, w)
unfolding Append.check_appendable
check-failed w e f = ground (arith, f)

pub failed-append_payload :
    (io : Io) (w : Wal) (payload : Bytes) (e : Error)
    → w.failure ≡ some e
    → (e : Error) × (Append.append_payload io payload w ≡ (throws e, w))
unfolding Append.append_payload
failed-append_payload io w payload e f = elim (prepare-cases w.host w.legacy_v2 payload) [
  | inl p ↦ (e, rw (p.1) (rw (check-failed w e f) refl))
  | inr p ↦ (p.0, rw (p.1) refl)
]

module _ (io : Io) (w : Wal) (rs : List ParsedRecord) (r : ParsedRecord) (h : Holds w rs)
    (written : w.header_pending ≡ false) (storable : IsStorable w.host true r)
    (room : w.next_sequence < u64_max) where
  -- A part of the frame, be it the whole of it, leaves a file that replays without or with the record.
  pub part-Replays :
      (k : ℕ) (file : Bytes)
      → file ≡ w.file ++ take k (to_write w r)
      → Replays w.host file rs ⊎ Replays w.host file (rs ++ r ∷ [])
  part-Replays k file e =
      let frame = frame_bytes w.host true w.next_sequence r in
      let n : w.next_sequence ≡ 1 + length rs = h.numbered in
      let file_eq : file
          ≡ make_header w.generation
            ++ (log_bytes w.host true 1 rs ++ take k (frame_bytes w.host true (1 + length rs) r)) =
        e
        ∙ rw (h.contents, written, n)
            (append_assoc (make_header w.generation) (log_bytes w.host true 1 rs)
              (take k (frame_bytes w.host true (1 + length rs) r))) in
      elim (Bool-cases (ltb k (length (frame_bytes w.host true (1 + length rs) r)))) [
        | inl cut ↦ inl (
            rw file_eq (
              Replays-cut w.host w.generation rs r k h.generation_pos h.generation_fits
                (omega (arith, n)) h.storable storable (ltb→lt k _ cut)))
        | inr all ↦ inr (
            rw file_eq (
              rw
                (
                  take_all k (frame_bytes w.host true (1 + length rs) r) (ltb→le k _ all),
                  sym (log-one w.host rs r),
                )
                (Replays-whole w.host w.generation (rs ++ r ∷ []) h.generation_pos h.generation_fits
                  (omega (arith, n, length-append rs (r ∷ [])))
                  (All-append (IsStorable w.host true) rs (r ∷ []) h.storable (storable, tt)))))
      ]
