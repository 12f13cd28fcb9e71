-- ===== src/Wal/Append/Holds.antt =====
-- The state of a v3 log that is ready for appends, and what an append makes of it, whatever the system
-- answers.
use concurrent_kv_store.Base.{
  All-append, Bool-cases, ℕ, ◌+◌, ◌≤◌, ◌<◌, ◌≡◌, refl, ◌∙◌, inl, inr, Bool, true, false, none, List,
  [], ◌∷◌, ◌++◌, arith, Bytes, length, All, length-append, append_assoc, append-nil, ok,
  if◌then◌else◌,
}
use concurrent_kv_store.Wal.Append
use concurrent_kv_store.Wal.Codec.{make_header}
use concurrent_kv_store.Wal.Record.Format.{IsStorable}
use concurrent_kv_store.Wal.Replay.Written.{log_bytes-append, frame_bytes, log_bytes}
use concurrent_kv_store.Wal.State.{Wal, whole, Io}
use concurrent_kv_store.Wal.Types.{WalStats, ParsedRecord, u64_max}

-- The header, once it is written.
abbrev pub written_header : Bool → ℕ → Bytes
written_header true generation = []
written_header false generation = make_header generation

-- A v3 log that holds the records `rs` and accepts appends.
pub record Holds (w : Wal) (rs : List ParsedRecord) : Type 0 where
  pub v3 : w.legacy_v2 ≡ false
  pub open_stream : w.output_good ≡ true
  pub valid : w.format_valid ≡ true
  pub recovered : w.needs_recovery ≡ false
  pub healthy : w.failure ≡ none
  pub fresh : w.header_pending ≡ true → rs ≡ []
  pub contents : w.file ≡ written_header w.header_pending w.generation ++ log_bytes w.host true 1 rs
  pub numbered : w.next_sequence ≡ 1 + length rs
  pub generation_pos : 0 < w.generation
  pub generation_fits : w.generation ≤ u64_max
  pub storable : All (IsStorable w.host true) rs

-- The log with its header written.
unfoldable pub with_header : Wal → Wal
with_header w =
    if w.header_pending
    then record w { file = w.file ++ make_header w.generation; header_pending = false }
    else w

pub with_header-pending :
    (w : Wal)
    → w.header_pending ≡ true
    → with_header w ≡ record w { file = w.file ++ make_header w.generation; header_pending = false }
unfolding with_header
with_header-pending w e = ground (arith, e)

pub with_header-written : (w : Wal) → w.header_pending ≡ false → with_header w ≡ w
unfolding with_header
with_header-written w e = ground (arith, e)

-- What an append may leave of the file: the old contents and a first part of what it writes.
pub ensure_header-ok :
    (io : Io) (w : Wal) (rs : List ParsedRecord)
    → io.header_write ≡ whole
    → Holds w rs
    → Append.ensure_header_locked io w ≡ (ok tt, with_header w)
unfolding Append.ensure_header_locked Append.write_output with_header
ensure_header-ok io w rs e h = ground (arith, h.v3, h.open_stream)

pub with_header-Holds :
    (w : Wal) (rs : List ParsedRecord)
    → Holds w rs
    → Holds (with_header w) rs × ((with_header w).header_pending ≡ false)
unfolding with_header log_bytes
with_header-Holds w rs h = elim (Bool-cases w.header_pending) [
  | inl pending ↦
      let e = h.fresh pending in
      let empty : w.file ≡ [] = h.contents ∙ rw (pending, e) in
      rw pending (
        record {
          v3 = h.v3;
          open_stream = h.open_stream;
          valid = h.valid;
          recovered = h.recovered;
          healthy = h.healthy;
          fresh = λ p. cc;
          contents = rw (empty, e, append-nil);
          numbered = h.numbered;
          generation_pos = h.generation_pos;
          generation_fits = h.generation_fits;
          storable = h.storable;
        },
        refl,
      )
  | inr written ↦ rw (with_header-written w written) (h, written)
]

-- The state behind a frame that was written, whatever the statistics are.
abbrev pub appended : Wal → ParsedRecord → WalStats → Wal
appended w r stats = record w {
  file = w.file ++ frame_bytes w.host true w.next_sequence r;
  next_sequence = w.next_sequence + 1;
  stats = stats;
}

pub appended-Holds :
    (w : Wal) (rs : List ParsedRecord) (r : ParsedRecord) (stats : WalStats)
    → Holds w rs
    → w.header_pending ≡ false
    → IsStorable w.host true r
    → Holds (appended w r stats) (rs ++ r ∷ [])
unfolding log_bytes
appended-Holds w rs r stats h written s = record {
  v3 = h.v3;
  open_stream = h.open_stream;
  valid = h.valid;
  recovered = h.recovered;
  healthy = h.healthy;
  fresh = λ p. cc;
  contents =
      rw (h.contents, written, log_bytes-append w.host true 1 rs (r ∷ []), h.numbered, append-nil)
        (append_assoc (make_header w.generation) (log_bytes w.host true 1 rs) _);
  numbered = omega (arith, h.numbered, length-append rs (r ∷ []));
  generation_pos = h.generation_pos;
  generation_fits = h.generation_fits;
  storable = All-append (IsStorable w.host true) rs (r ∷ []) h.storable (s, tt);
}
