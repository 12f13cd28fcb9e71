-- ===== src/Wal/Append/Outcome.antt =====
-- The write and the sync of a frame behind the header, by what the system answers.
use Prim.Native.Nat.{suc, min}
use concurrent_kv_store.Wal.Record.Format.{payload_of}
use concurrent_kv_store.Wal.Append.Framing.{number_frame-blank_frame, blank_frame}
use concurrent_kv_store.Wal.Append.{Exec, torn, whole, u64_max}
use concurrent_kv_store.Base.{
  zero, ◌∷◌, take_all, ◌∙◌, take-append_add, ap, sym, length, wal_frame_write_failed, ◌<◌, false,
  ◌+◌, wal_sync_failed, fault_hook_failed, ℕ, ◌≡◌, refl, ◌⊎◌, inl, inr, true, [], ◌++◌, arith,
  Bytes, take, Error, Result, ok, throws, if◌then◌else◌, Bool-cases,
}
use concurrent_kv_store.Wal.Append
use concurrent_kv_store.Wal.Append.Holds.{with_header, appended}
use concurrent_kv_store.Wal.Codec.{make_header}
use concurrent_kv_store.Wal.Replay.Written.{frame_bytes}
use concurrent_kv_store.Wal.State.{WriteOutcome, Wal, Io, ◌>>◌}
use concurrent_kv_store.Wal.Types.{
  ParsedRecord, WalStats, DurabilityPolicy, buffered, sync, group_commit,
}

-- What is still to be written for the record r.
abbrev pub to_write : Wal → ParsedRecord → Bytes
to_write w r =
    (if w.header_pending then make_header w.generation else [])
    ++ frame_bytes w.host true w.next_sequence r

-- The two ways in which an append ends.
abbrev Done : Wal → ParsedRecord → Result (Unit {0}) × Wal → Type 0
Done w r p = (stats : WalStats) × (p ≡ (ok tt, appended (with_header w) r stats))

abbrev Fails : Wal → ParsedRecord → Result (Unit {0}) × Wal → Type 0
Fails w r p =
    (e : Error) × (k : ℕ) × (p.0 ≡ throws e) × (p.1.file ≡ w.file ++ take k (to_write w r))

-- The statistics behind a successful `SyncLocked`.
abbrev synced_stats : Wal → WalStats
synced_stats w =
    if w.sync_fd then record w.stats { sync_calls = w.stats.sync_calls + 1 } else w.stats

sync_locked-cases :
    (io : Io) (w : Wal)
    → (Append.sync_locked io w ≡ (ok tt, record w { stats = synced_stats w }))
      ⊎ (Append.sync_locked io w ≡ (throws wal_sync_failed, w))
unfolding Append.sync_locked
sync_locked-cases io w = ground arith

sync_frame-cases :
    (io : Io) (policy : DurabilityPolicy) (w : Wal)
    → ((stats : WalStats) × (Append.sync_frame io policy w ≡ (ok tt, record w { stats = stats })))
      ⊎ ((e : Error) × (stats : WalStats) × (Append.sync_frame io policy w
            ≡ (throws e, record w { stats = stats })))
unfolding Append.sync_frame
sync_frame-cases io buffered w = inl (w.stats, refl)
sync_frame-cases io group_commit w = inl (w.stats, refl)
sync_frame-cases io sync w = elim (sync_locked-cases io w) [
  | inr e ↦ inr (wal_sync_failed, w.stats, rw e)
  | inl e ↦ elim (Bool-cases io.after_sync_hook_throws) [
    | inl fails ↦ inr (fault_hook_failed, synced_stats w, rw e (rw fails))
    | inr calm ↦ inl (
      record (synced_stats w) { batch_histogram = Append.bump 1 (synced_stats w).batch_histogram },
      rw e (rw calm),
    )
  ]
]

pub write-cases : (o : WriteOutcome) → (o ≡ whole) ⊎ ((n : ℕ) × (o ≡ torn n))
write-cases whole = inl refl
write-cases (torn n) = inr (n, refl)

-- How the frame's write and its sync go.
abbrev pub frame_call : Io → Wal → ParsedRecord → Exec (Unit {0})
frame_call io v r = (do
  Append.write_frame_locked io (blank_frame (payload_of v.host true r))
  Append.sync_frame io v.policy)

-- A frame behind the header.
module _ (io : Io) (v : Wal) (r : ParsedRecord) (v3 : v.legacy_v2 ≡ false)
    (good : v.output_good ≡ true) (room : v.next_sequence < u64_max) where
  abbrev numbered : Wal
  numbered = record v { next_sequence = v.next_sequence + 1 }

  finalize-blank :
      Append.finalize_frame_locked (blank_frame (payload_of v.host true r)) v
      ≡ (ok (frame_bytes v.host true v.next_sequence r), numbered)
  unfolding Append.finalize_frame_locked
  finalize-blank = ground (arith, number_frame-blank_frame v.host v.next_sequence r)

  -- The statistics behind a frame.
  abbrev recorded : WalStats
  recorded = record v.stats { records = v.stats.records + 1 }

  write_frame-whole :
      v.header_pending ≡ false
      → io.frame_write ≡ whole
      → io.after_write_hook_throws ≡ false
      → Append.write_frame_locked io (blank_frame (payload_of v.host true r)) v
        ≡ (ok tt, appended v r recorded)
  unfolding Append.write_frame_locked Append.ensure_header_locked Append.write_output
  write_frame-whole written w h = ground (arith, finalize-blank, written)

  write_frame-hook :
      v.header_pending ≡ false
      → io.frame_write ≡ whole
      → io.after_write_hook_throws ≡ true
      → Append.write_frame_locked io (blank_frame (payload_of v.host true r)) v
        ≡ (throws fault_hook_failed, appended v r v.stats)
  unfolding Append.write_frame_locked Append.ensure_header_locked Append.write_output
  write_frame-hook written w h = ground (arith, finalize-blank, written)

  write_frame-torn :
      (n : ℕ)
      → v.header_pending ≡ false
      → io.frame_write ≡ torn n
      → Append.write_frame_locked io (blank_frame (payload_of v.host true r)) v ≡ (
        throws wal_frame_write_failed,
        record numbered {
          file = v.file ++ take n (frame_bytes v.host true v.next_sequence r);
          output_good = false;
        },
      )
  unfolding Append.write_frame_locked Append.ensure_header_locked Append.write_output
  write_frame-torn n written w = ground (arith, finalize-blank, written)

  abbrev pub FrameEnds : Type 0
  FrameEnds =
      ((stats : WalStats) × (frame_call io v r v ≡ (ok tt, appended v r stats)))
      ⊎ ((e : Error) × (n : ℕ) × (frame_call io v r v).0 ≡ throws e
          × (frame_call io v r v).1.file
            ≡ v.file ++ take n (frame_bytes v.host true v.next_sequence r))

  whole_frame :
      v.file ++ frame_bytes v.host true v.next_sequence r
      ≡ v.file
        ++ take
            (length (frame_bytes v.host true v.next_sequence r))
            (frame_bytes v.host true v.next_sequence r)
  whole_frame =
      let f = frame_bytes v.host true v.next_sequence r in
      ap (λ (l : Bytes). v.file ++ l) (sym (take_all (length f) f (omega arith)))

  pub frame_call-cases : v.header_pending ≡ false → FrameEnds
  frame_call-cases written = elim (write-cases io.frame_write) [
    | inr t ↦ inr (
      wal_frame_write_failed,
      t.0,
      rw (write_frame-torn t.0 written t.1) refl,
      rw (write_frame-torn t.0 written t.1) refl,
    )
    | inl w ↦ elim (Bool-cases io.after_write_hook_throws) [
      | inl fails ↦ inr (
        fault_hook_failed,
        length (frame_bytes v.host true v.next_sequence r),
        rw (write_frame-hook written w fails) refl,
        rw (write_frame-hook written w fails) whole_frame,
      )
      | inr quiet ↦ elim (sync_frame-cases io v.policy (appended v r recorded)) [
        | inl s ↦ inl (s.0, rw (write_frame-whole written w quiet) (rw (s.1) refl))
        | inr s ↦ inr (
          s.0,
          length (frame_bytes v.host true v.next_sequence r),
          rw (write_frame-whole written w quiet) (rw (s.2) refl),
          rw (write_frame-whole written w quiet) (rw (s.2) whole_frame),
        )
      ]
    ]
  ]

pub take_short : (xs ys : Bytes) (n : ℕ) → take n xs ≡ take (min n (length xs)) (xs ++ ys)
take_short [] ys zero = refl
take_short [] ys (suc n) = let e : 0 ≡ min (suc n) 0 = omega arith in ap (λ (k : ℕ). take k ys) e
take_short (x ∷ xs) ys zero =
    let e : 0 ≡ min 0 (suc (length xs)) = omega arith in ap (λ (k : ℕ). take k (x ∷ (xs ++ ys))) e
take_short (x ∷ xs) ys (suc n) =
    let e : suc (min n (length xs)) ≡ min (suc n) (suc (length xs)) = omega arith in
    ap (λ (l : Bytes). x ∷ l) (take_short xs ys n) ∙ ap (λ (k : ℕ). take k (x ∷ (xs ++ ys))) e

pub take_behind : (xs ys : Bytes) (n : ℕ) → xs ++ take n ys ≡ take (length xs + n) (xs ++ ys)
take_behind xs ys n = sym (take-append_add xs ys n)
