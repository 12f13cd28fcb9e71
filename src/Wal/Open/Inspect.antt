-- ===== src/Wal/Open/Inspect.antt =====
-- The constructor on the file of a log that is ready for appends.
use concurrent_kv_store.Wal.Append.Crash.{frame_pos, tombstone-IsStorable, tombstone}
use concurrent_kv_store.Wal.Append.Holds.{Holds}
use concurrent_kv_store.Base.{
  sym, Result, returned, ok-injective, not_both, ltb, ◌||◌, ap, inr, append-nil, inl, Bool-cases,
  ◌∙◌, not, ℕ, ◌+◌, ◌≡◌, ◌≤◌, ◌<◌, ◌==◌, List, [], ◌++◌, Bytes, true, false, arith, refl, length,
  ok, All,
}
use concurrent_kv_store.Base.Results
use mathlib.Core.Path.{subst}
use concurrent_kv_store.Wal.Truncate.{is_buffered}
use concurrent_kv_store.BinaryIo.{Endian}
use concurrent_kv_store.Wal.Codec.{make_header}
use concurrent_kv_store.Wal.Codec.Header.{parse_header-make_header}
use concurrent_kv_store.Wal.Open.{open_sync_fd, open_wal, new_wal, inspect_file, inspect_portable}
use concurrent_kv_store.Wal.Record.Format.{IsStorable}
use concurrent_kv_store.Wal.Replay.Recovery.{Torn, replay-cut_log}
use concurrent_kv_store.Wal.Replay.Begin.{magic_prefix-file, length-file}
use concurrent_kv_store.Wal.Replay.Torn.{cut_status}
use concurrent_kv_store.Wal.Replay.Written.{log_bytes}
use concurrent_kv_store.Wal.State.{Io, Wal}
use concurrent_kv_store.Wal.Truncate.{replay_wal, is_clean}
use concurrent_kv_store.Wal.Types.{buffered, ParsedRecord, DurabilityPolicy, u64_max}

module _ (host : Endian) (policy : DurabilityPolicy) (max_batch generation : ℕ)
    (rs : List ParsedRecord) (h : 0 < generation) (g : generation ≤ u64_max)
    (room : length rs < u64_max) (s : All (IsStorable host true) rs) where
  -- What the constructor finds in a file that holds the records and a cut frame.
  abbrev pub found : ℕ → Bytes → Wal
  found k file = record (new_wal host file policy max_batch) {
    generation = generation;
    needs_recovery = not (is_clean (cut_status k));
    next_sequence = length rs + 1;
  }

  pub inspect_file-cut :
      (k : ℕ) (tail : Bytes)
      → Torn host true k tail
      → let file = make_header generation ++ (log_bytes host true 1 rs ++ tail) in
        inspect_file (new_wal host file policy max_batch) ≡ ok (found k file)
  unfolding inspect_file inspect_portable new_wal replay_wal
  inspect_file-cut k tail torn =
      let rest = log_bytes host true 1 rs ++ tail in
      let (result, replayed, recovered) =
        replay-cut_log host generation rs k tail [] h g room s torn in
      let not_empty : (length (make_header generation ++ rest) == 0) ≡ false =
        ground (arith, length-file host generation rest [] h g) in
      let not_last : (length rs == u64_max) ≡ false = ground (arith, room) in
      rw not_empty (
        rw (magic_prefix-file host generation rest [] h g) (
          rw (parse_header-make_header generation 1 rest h g)
            (rw replayed (rw (recovered.last_sequence, recovered.status_eq) (rw not_last refl)))))

-- A log that the constructor opened: it holds the records of the file.
abbrev pub Opened : Endian → Bytes → List ParsedRecord → Wal → Type 0
Opened host file rs v = Holds v rs × (v.host ≡ host) × (v.file ≡ file)

module _ (w : Wal) (policy : DurabilityPolicy) (max_batch : ℕ) (rs : List ParsedRecord)
    (h : Holds w rs) (room : length rs < u64_max) where
  abbrev Inspected : Type 0
  Inspected =
      (v : Wal) × (inspect_file (new_wal w.host w.file policy max_batch) ≡ ok v)
      × Opened w.host w.file rs v

  inspect_file-pending : w.header_pending ≡ true → Inspected
  unfolding inspect_file new_wal log_bytes
  inspect_file-pending pending =
      let none_yet = h.fresh pending in
      let empty : w.file ≡ [] = h.contents ∙ rw (pending, none_yet) refl in
      (
        record (new_wal w.host w.file policy max_batch) { header_pending = true },
        rw empty refl,
        (
          record {
            v3 = refl;
            open_stream = refl;
            valid = refl;
            recovered = refl;
            healthy = refl;
            fresh = λ p. none_yet;
            contents = rw (empty, none_yet) refl;
            numbered = rw none_yet refl;
            generation_pos = omega arith;
            generation_fits = omega arith;
            storable = h.storable;
          },
          refl,
          refl,
        ),
      )

  inspect_file-written : w.header_pending ≡ false → Inspected
  unfolding new_wal is_clean
  inspect_file-written written =
      let file_eq : w.file ≡ make_header w.generation ++ (log_bytes w.host true 1 rs ++ []) =
        h.contents ∙ rw (written, append-nil (log_bytes w.host true 1 rs)) refl in
      let e =
        inspect_file-cut w.host policy max_batch w.generation rs h.generation_pos h.generation_fits
          room h.storable 0 []
          (record {
            written = tombstone;
            sequence = 0;
            sequence_fits = omega arith;
            storable = tombstone-IsStorable w.host;
            cut = frame_pos w.host 0 tombstone;
            tail_eq = refl;
          }) in
      (
        found w.host policy max_batch w.generation rs h.generation_pos h.generation_fits room
            h.storable 0 w.file,
        ap (λ (file : Bytes). inspect_file (new_wal w.host file policy max_batch)) file_eq
            ∙ e
            ∙ rw file_eq refl,
        (
          record {
            v3 = refl;
            open_stream = refl;
            valid = refl;
            recovered = refl;
            healthy = refl;
            fresh = λ p. cc;
            contents = h.contents ∙ rw written refl;
            numbered = omega arith;
            generation_pos = h.generation_pos;
            generation_fits = h.generation_fits;
            storable = h.storable;
          },
          refl,
          refl,
        ),
      )

  inspect_file-Holds : Inspected
  inspect_file-Holds = elim (Bool-cases w.header_pending) [
    | inl pending ↦ inspect_file-pending pending
    | inr written ↦ inspect_file-written written
  ]

-- The descriptor for synchronisation is the only other change.
open_sync_fd-Opened :
    (io : Io) (host : Endian) (file : Bytes) (rs : List ParsedRecord) (v u : Wal)
    → Opened host file rs v
    → open_sync_fd io v ≡ ok u
    → Opened host file rs u
unfolding open_sync_fd
open_sync_fd-Opened io host file rs v u (h, same_host, same_file) =
    let synced : Opened host file rs (record v { sync_fd = true }) = (
      record {
        v3 = h.v3;
        open_stream = h.open_stream;
        valid = h.valid;
        recovered = h.recovered;
        healthy = h.healthy;
        fresh = h.fresh;
        contents = h.contents;
        numbered = h.numbered;
        generation_pos = h.generation_pos;
        generation_fits = h.generation_fits;
        storable = h.storable;
      },
      same_host,
      same_file,
    ) in
    elim (Bool-cases (is_buffered v.policy)) [
      | inl plain ↦
          rw plain (λ e. subst (Opened host file rs) (ok-injective e) (h, same_host, same_file))
      | inr other ↦ elim (Bool-cases io.sync_fails) [
        | inl fails ↦ rw other (rw fails (λ e. absurd (not_both false (ap returned e) refl)))
        | inr fine ↦ rw other (rw fine (λ e. subst (Opened host file rs) (ok-injective e) synced))
      ]
    ]

-- A constructor that returns got as far as the last call.
open_wal-reaches :
    (host : Endian) (io : Io) (file : Bytes) (policy : DurabilityPolicy) (max_batch : ℕ)
    → returned (open_wal host io file policy max_batch) ≡ true
    → open_wal host io file policy max_batch
      ≡ Results.◌>>=◌ (inspect_file (new_wal host file policy max_batch)) (open_sync_fd io)
unfolding open_wal
open_wal-reaches host io file policy max_batch = elim (Bool-cases io.open_fails) [
  | inl a ↦ rw a (λ r. absurd (not_both _ r refl))
  | inr a ↦ elim (Bool-cases (max_batch == 0 || ltb 4096 max_batch)) [
    | inl b ↦ rw a (rw b (λ r. absurd (not_both _ r refl)))
    | inr b ↦ elim (Bool-cases io.inspect_fails) [
      | inl c ↦ rw a (rw b (rw c (λ r. absurd (not_both _ r refl))))
      | inr c ↦ rw a (rw b (rw c (λ r. refl)))
    ]
  ]
]

-- Opening the file of a log that holds records gives a log that holds them.
pub open_wal-Opened :
    (w : Wal) (rs : List ParsedRecord) (io : Io) (policy : DurabilityPolicy) (max_batch : ℕ)
    (u : Wal)
    → Holds w rs
    → length rs < u64_max
    → open_wal w.host io w.file policy max_batch ≡ ok u
    → Opened w.host w.file rs u
open_wal-Opened w rs io policy max_batch u h room e =
    let (v, inspected, opened) = inspect_file-Holds w policy max_batch rs h room in
    let reaches = open_wal-reaches w.host io w.file policy max_batch (ap returned e) in
    open_sync_fd-Opened io w.host w.file rs v u opened
      (ap (λ (r : Result Wal). Results.◌>>=◌ r (open_sync_fd io)) (sym inspected) ∙ sym reaches ∙ e)

-- The constructor, when the system does not fail.
pub open_wal-returns :
    (w : Wal) (rs : List ParsedRecord) (io : Io)
    → Holds w rs
    → length rs < u64_max
    → io.open_fails ≡ false
    → io.inspect_fails ≡ false
    → io.sync_fails ≡ false
    → (u : Wal) × (open_wal w.host io w.file buffered 32 ≡ ok u)
unfolding open_wal open_sync_fd
open_wal-returns w rs io h room opens reads syncs =
    let (v, inspected, opened) = inspect_file-Holds w buffered 32 rs h room in
    elim (Bool-cases (is_buffered v.policy)) [
      | inl plain ↦ (v, rw opens (rw reads (rw inspected (rw plain refl))))
      | inr other ↦ (
        record v { sync_fd = true },
        rw opens (rw reads (rw inspected (rw other (rw syncs refl)))),
      )
    ]
