-- ===== src/Wal/Append/Call.antt =====
-- `AppendSet` and `AppendDelete` on a log in the state that appends keep.
use concurrent_kv_store.Wal.Append.Atomic.{Part, Whole, append_payload-outcome}
use concurrent_kv_store.Base.{
  not_both, ap, inr, sym, ◌∷◌, ◌++◌, ◌⊎◌, inl, length, Result, Bool-cases, ltb, ltb→lt, ltb→le,
  returned, false, returned, ◌+◌, ◌≡◌, ◌<◌, List, [], Bytes, true, arith, refl,
}
use concurrent_kv_store.BinaryIo.{Endian, checked_size}
use concurrent_kv_store.Wal.Append
use concurrent_kv_store.Wal.Append.Framing.{set_payload-ok, delete_payload-ok}
use concurrent_kv_store.Wal.Append.Holds.{Holds}
use concurrent_kv_store.Wal.Record.Format.{HasNoStrayValue, IsStorable, payload_of, payload_size}
use concurrent_kv_store.Wal.Record.Payload.{set_payload, delete_payload, checked_record_length}
use concurrent_kv_store.Wal.Record.RoundTrip.{length-record_bytes}
use concurrent_kv_store.Wal.State.{Wal, Io}
use concurrent_kv_store.Wal.Types
use concurrent_kv_store.Wal.Types.{ParsedRecord, max_record_length, u64_max}

abbrev pub set_record : Bytes → Bytes → ParsedRecord
set_record key value = record { op = Types.WalOp.set; key = key; value = value }

abbrev pub delete_record : Bytes → ParsedRecord
delete_record key = record { op = Types.WalOp.delete; key = key; value = [] }

module _ (io : Io) (w : Wal) (rs : List ParsedRecord) (h : Holds w rs) where
  pub append_set-payload :
      (key value : Bytes)
      → IsStorable w.host true (set_record key value)
      → Append.append_set io key value w
        ≡ Append.append_payload io (payload_of w.host true (set_record key value)) w
  unfolding Append.append_set payload_of
  append_set-payload key value s = rw (h.v3) (
      rw
        (set_payload-ok w.host key value
          (omega (arith, s.fits, length-record_bytes w.host true 0 (set_record key value))))
        refl)

  pub append_delete-payload :
      (key : Bytes)
      → IsStorable w.host true (delete_record key)
      → Append.append_delete io key w
        ≡ Append.append_payload io (payload_of w.host true (delete_record key)) w
  unfolding Append.append_delete payload_of
  append_delete-payload key s = rw (h.v3) (
      rw
        (delete_payload-ok w.host key
          (omega (arith, s.fits, length-record_bytes w.host true 0 (delete_record key))))
        refl)

  append_set-large :
      (key value : Bytes)
      → max_record_length < 8 + payload_size Types.WalOp.set key value
      → (returned (Append.append_set io key value w).0 ≡ false)
        × ((Append.append_set io key value w).1 ≡ w)
  unfolding Append.append_set set_payload checked_size checked_record_length
  append_set-large key value large = ground (arith, h.v3)

  append_delete-large :
      (key : Bytes)
      → max_record_length < 8 + payload_size Types.WalOp.delete key []
      → (returned (Append.append_delete io key w).0 ≡ false)
        × ((Append.append_delete io key w).1 ≡ w)
  unfolding Append.append_delete delete_payload checked_size checked_record_length
  append_delete-large key large = ground (arith, h.v3)

  append_payload-exhausted :
      (payload : Bytes)
      → w.next_sequence ≡ u64_max
      → returned (Append.append_payload io payload w).0 ≡ false
  unfolding Append.append_payload Append.prepare_frame Append.check_appendable
      Append.write_frame_locked Append.ensure_header_locked Append.finalize_frame_locked
      Append.write_output
  append_payload-exhausted payload last = ground (arith, h.v3, last)

-- Whether a record fits.
IsStorable-cases :
    (host : Endian) (r : ParsedRecord)
    → HasNoStrayValue r.op r.value
    → IsStorable host true r ⊎ (max_record_length < 8 + payload_size r.op r.key r.value)
IsStorable-cases host r canonical =
    elim (Bool-cases (ltb max_record_length (8 + payload_size r.op r.key r.value))) [
      | inl large ↦ inr (ltb→lt max_record_length _ large)
      | inr fits ↦ inl (record {
        canonical = canonical;
        fits = omega (arith, ltb→le max_record_length _ fits, length-record_bytes host true 0 r);
      })
    ]

-- What a call that returned made of the log.
abbrev pub Accepted : Wal → List ParsedRecord → ParsedRecord → Result (Unit {0}) × Wal → Type 0
Accepted w rs r p =
    IsStorable w.host true r
    × Holds p.1 (rs ++ r ∷ [])
    × (p.1.host ≡ w.host)
    × (1 + length rs < u64_max)

module _ (io : Io) (w : Wal) (rs : List ParsedRecord) (h : Holds w rs)
    (room : length rs < u64_max) where
  append_payload-returned :
      (r : ParsedRecord)
      → IsStorable w.host true r
      → let p = Append.append_payload io (payload_of w.host true r) w in
        returned p.0 ≡ true → Accepted w rs r p
  append_payload-returned r s done =
      let p = Append.append_payload io (payload_of w.host true r) w in
      elim (Bool-cases (ltb w.next_sequence u64_max)) [
        | inl left ↦ elim (append_payload-outcome io w rs r h s (ltb→lt w.next_sequence _ left)) [
          | inl whole ↦
              (s, whole.1, whole.3, omega (arith, h.numbered, ltb→lt w.next_sequence _ left))
          | inr part ↦ absurd (not_both (returned p.0) done (ap returned (part.2)))
        ]
        | inr none_left ↦
            let last : w.next_sequence ≡ u64_max =
              omega (arith, h.numbered, room, ltb→le w.next_sequence _ none_left) in
            absurd (
              not_both (returned p.0) done
                (append_payload-exhausted io w rs h (payload_of w.host true r) last))
      ]

  -- A SET or a DELETE of the log that returned took the record.
  pub append_set-returned :
      (key value : Bytes)
      → let p = Append.append_set io key value w in
        returned p.0 ≡ true → Accepted w rs (set_record key value) p
  append_set-returned key value done = elim (IsStorable-cases w.host (set_record key value) tt) [
    | inl s ↦
        let e = append_set-payload io w rs h key value s in
        rw e (append_payload-returned (set_record key value) s (rw (sym e) done))
    | inr large ↦
        let (failed, _) = append_set-large io w rs h key value large in
        absurd (not_both _ done failed)
  ]

  pub append_delete-returned :
      (key : Bytes)
      → let p = Append.append_delete io key w in
        returned p.0 ≡ true → Accepted w rs (delete_record key) p
  append_delete-returned key done = elim (IsStorable-cases w.host (delete_record key) refl) [
    | inl s ↦
        let e = append_delete-payload io w rs h key s in
        rw e (append_payload-returned (delete_record key) s (rw (sym e) done))
    | inr large ↦
        let (failed, _) = append_delete-large io w rs h key large in absurd (not_both _ done failed)
  ]

-- How a SET or a DELETE of the log ends: too large, so that nothing happens, or as an append does.
abbrev pub Ends : Wal → List ParsedRecord → ParsedRecord → Result (Unit {0}) × Wal → Type 0
Ends w rs r p =
    ((returned p.0 ≡ false) × (p.1 ≡ w))
    ⊎ (IsStorable w.host true r × (Whole w rs r p ⊎ Part w r p))

module _ (io : Io) (w : Wal) (rs : List ParsedRecord) (h : Holds w rs)
    (room : w.next_sequence < u64_max) where
  pub append_set-Ends :
      (key value : Bytes) → Ends w rs (set_record key value) (Append.append_set io key value w)
  append_set-Ends key value = elim (IsStorable-cases w.host (set_record key value) tt) [
    | inl s ↦ inr (
      s,
      rw (append_set-payload io w rs h key value s)
          (append_payload-outcome io w rs (set_record key value) h s room),
    )
    | inr large ↦ inl (append_set-large io w rs h key value large)
  ]

  pub append_delete-Ends :
      (key : Bytes) → Ends w rs (delete_record key) (Append.append_delete io key w)
  append_delete-Ends key = elim (IsStorable-cases w.host (delete_record key) refl) [
    | inl s ↦ inr (
      s,
      rw (append_delete-payload io w rs h key s)
          (append_payload-outcome io w rs (delete_record key) h s room),
    )
    | inr large ↦ inl (append_delete-large io w rs h key large)
  ]
