-- ===== src/Wal/Replay/Loops.antt =====
-- The replay loop over the frames of records.
use concurrent_kv_store.Wal.Replay.Written.{
  frame_bytes, log_bytes, apply_all, read_frame-frame_bytes,
}
use mathlib.Core.Path.{subst₂}
use concurrent_kv_store.Base.{
  ℕ, suc, ◌+◌, ◌^◌, ◌<◌, ◌≡◌, refl, ap, ◌∙◌, Bool, true, false, List, [], ◌∷◌, ◌++◌, arith, Bytes,
  length, All, length-append, append_assoc,
}
use concurrent_kv_store.BinaryIo.{Endian}
use concurrent_kv_store.Maps.{Map}
use concurrent_kv_store.Wal.Record.Format.{IsStorable, reported}
use concurrent_kv_store.Wal.Record.Parser.{apply_record}
use concurrent_kv_store.Wal.Replay.{replay_loop, bad_sequence, count_record}
use concurrent_kv_store.Wal.Replay.Loop.{replay_loop-reads}
use concurrent_kv_store.Wal.Types.{WalReplayResult, ParsedRecord}

-- Where the loop stands between two records of a written log.
pub record Stands (portable : Bool) (offset : ℕ) (result : WalReplayResult) (first cursor : ℕ)
    : Type 0 where
  pub good : result.last_good_offset ≡ cursor
  pub in_order : bad_sequence portable offset result (reported portable first) ≡ false

-- The result after a record that was written where the loop stands.
Stands-count_record :
    (portable : Bool) (offset : ℕ) (result : WalReplayResult) (first cursor : ℕ)
    → first + 1 < 2 ^ 64
    → Stands portable offset
        (count_record portable result (reported portable first) cursor)
        (first + 1)
        cursor
unfolding count_record bad_sequence
Stands-count_record true offset result first cursor h = record {
  good = refl;
  in_order = ground arith;
}
Stands-count_record false offset result first cursor h = record { good = refl; in_order = refl }

-- The result after all records of a log that begins at `cursor`.
pub after_log : Endian → Bool → ℕ → ℕ → List ParsedRecord → WalReplayResult → WalReplayResult
after_log host portable first cursor [] result = result
after_log host portable first cursor (r ∷ rs) result =
    let next = cursor + length (frame_bytes host portable first r) in
    after_log host portable (first + 1) next rs
      (count_record portable result (reported portable first) next)

module _ (host : Endian) (portable : Bool) (offset : ℕ) where
  -- The loop applies the records of a written log one after the other.
  pub replay_loop-log_bytes :
      (rs : List ParsedRecord) (first fuel : ℕ) (tail : Bytes) (cursor : ℕ)
      (result : WalReplayResult) (store : Map)
      → first + length rs < 2 ^ 64
      → All (IsStorable host portable) rs
      → Stands portable offset result first cursor
      → replay_loop
          (length rs + fuel)
          host
          portable
          offset
          (log_bytes host portable first rs ++ tail)
          cursor
          result
          store
        ≡ replay_loop fuel host portable offset tail
            (cursor + length (log_bytes host portable first rs))
            (after_log host portable first cursor rs result)
            (apply_all rs store)
  unfolding log_bytes after_log apply_all
  replay_loop-log_bytes [] first fuel tail cursor result store h s stands =
      ap (λ (k : ℕ). replay_loop k host portable offset tail cursor result store) zero_fuel
      ∙ ap (λ (c : ℕ). replay_loop fuel host portable offset tail c result store) same_cursor
    where
      zero_fuel : 0 + fuel ≡ fuel
      zero_fuel = omega arith

      same_cursor : cursor ≡ cursor + 0
      same_cursor = omega arith
  replay_loop-log_bytes (r ∷ rs) first fuel tail cursor result store h (s, ss) stands =
      let frame = frame_bytes host portable first r in
      let log = log_bytes host portable (first + 1) rs in
      let next = cursor + length frame in
      let result' = count_record portable result (reported portable first) next in
      let store' = apply_record r store in
      let e : suc (length rs) + fuel ≡ suc (length rs + fuel) = omega arith in
      let e' : next + length log ≡ cursor + length (frame ++ log) =
        omega (arith, length-append frame log) in
      ap
        (λ (k : ℕ). replay_loop k host portable offset ((frame ++ log) ++ tail) cursor result store)
        e
      ∙ ap
          (λ (l : Bytes).
            replay_loop (suc (length rs + fuel)) host portable offset l cursor result store)
          (append_assoc frame log tail)
      ∙ replay_loop-reads host portable offset (frame ++ (log ++ tail)) cursor result store
          (read_frame-frame_bytes host portable first r (log ++ tail) cursor (omega arith) s)
          (length rs + fuel) stands.in_order
      ∙ replay_loop-log_bytes rs (first + 1) fuel tail next result' store' (omega arith) ss
          (Stands-count_record portable offset result first next (omega arith))
      ∙ ap
          (λ (c : ℕ).
            replay_loop fuel host portable offset tail c
              (after_log host portable (first + 1) next rs result') (apply_all rs store'))
          e'

  pub after_log-Stands :
      (rs : List ParsedRecord) (first cursor : ℕ) (result : WalReplayResult)
      → first + length rs < 2 ^ 64
      → Stands portable offset result first cursor
      → Stands portable offset
          (after_log host portable first cursor rs result)
          (first + length rs)
          (cursor + length (log_bytes host portable first rs))
  unfolding log_bytes after_log
  after_log-Stands [] first cursor result h stands =
      subst₂ (λ f c. Stands portable offset result f c) same_first same_cursor stands
    where
      same_first : first ≡ first + 0
      same_first = omega arith

      same_cursor : cursor ≡ cursor + 0
      same_cursor = omega arith
  after_log-Stands (r ∷ rs) first cursor result h stands =
      let frame = frame_bytes host portable first r in
      let log = log_bytes host portable (first + 1) rs in
      let e : first + 1 + length rs ≡ first + suc (length rs) = omega arith in
      let e' : cursor + length frame + length log ≡ cursor + length (frame ++ log) =
        omega (arith, length-append frame log) in
      subst₂
        (λ f c. Stands portable offset (after_log host portable first cursor (r ∷ rs) result) f c) e
        e'
        (after_log-Stands rs (first + 1) (cursor + length frame) _ (omega arith)
          (Stands-count_record portable offset result first (cursor + length frame) (omega arith)))

  -- What the records of a log leave alone, and how many there were.
  pub after_log_fields :
      (rs : List ParsedRecord) (first cursor : ℕ) (result : WalReplayResult)
      → let final = after_log host portable first cursor rs result in
        (final.applied_operations ≡ result.applied_operations + length rs)
        × (final.start_offset ≡ result.start_offset)
        × (final.generation ≡ result.generation)
        × (final.status ≡ result.status)
        × (final.truncated ≡ result.truncated)
  unfolding after_log count_record
  after_log_fields [] first cursor result = (omega arith, refl, refl, refl, refl)
  after_log_fields (r ∷ rs) first cursor result =
      let next = cursor + length (frame_bytes host portable first r) in
      let (a, b, c, d, e) =
        after_log_fields rs (first + 1) next
          (count_record portable result (reported portable first) next) in
      (omega (arith, a), b, c, d, e)

-- The sequence number of the last of the records numbered from `first` on, or `default`.
abbrev pub last_of : ℕ → List ParsedRecord → ℕ → ℕ
last_of first [] default = default
last_of first (r ∷ rs) default = first + length rs

pub last_sequence-after_log :
    (host : Endian) (rs : List ParsedRecord) (first cursor : ℕ) (result : WalReplayResult)
    → (after_log host true first cursor rs result).last_sequence
      ≡ last_of first rs result.last_sequence
unfolding after_log count_record
last_sequence-after_log host [] first cursor result = refl
last_sequence-after_log host (r ∷ []) first cursor result = omega arith
last_sequence-after_log host (r ∷ (s ∷ rs)) first cursor result =
    let e : first + 1 + length rs ≡ first + suc (length rs) = omega arith in
    let next = cursor + length (frame_bytes host true first r) in
    last_sequence-after_log host (s ∷ rs) (first + 1) next (count_record true result first next) ∙ e

pub last_of-one : (rs : List ParsedRecord) → last_of 1 rs 0 ≡ length rs
last_of-one [] = refl
last_of-one (r ∷ rs) = omega arith
