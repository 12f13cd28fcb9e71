-- ===== src/Wal/Append/Suffix.antt =====
-- Replay from the offset that a snapshot recorded, of the file that an append leaves.
use concurrent_kv_store.Base.{
  bytes_discrete, zero, sym, ap, ◌∷◌, suc, ◌==◌, length-take, ◌∙◌, false, inr, inl, append-nil,
  arith, ◌++◌, true, All, ◌-◌, ◌+◌, le→ltb, ◌⊎◌, [], ok, length, ◌^◌, ◌≤◌, some, ◌≡◌, ◌<◌, List,
  take, Bytes, ℕ, refl, Bool-cases,
}
use concurrent_kv_store.BinaryIo.{Endian}
use concurrent_kv_store.Maps.{Map}
use concurrent_kv_store.Wal.Append.Crash.{tombstone, tombstone-IsStorable, frame_pos}
use concurrent_kv_store.Wal.Append.Holds.{Holds}
use concurrent_kv_store.Wal.Codec.{make_header, parse_header}
use concurrent_kv_store.Wal.Codec.Header.{length-make_header, take-magic}
use concurrent_kv_store.Wal.Record.Format.{IsStorable}
use concurrent_kv_store.Wal.Replay.{
  initial_result, replay_from_detailed, replay_opened, replay_portable, magic_prefix,
}
use concurrent_kv_store.Wal.Replay.Recovery.{Torn, replay-cut_log, replay-cut_log_from}
use concurrent_kv_store.Wal.Replay.Written.{apply_all, log_bytes, frame_bytes}
use concurrent_kv_store.Wal.State.{Wal}
use concurrent_kv_store.Wal.Types.{
  invalid_header, wal_magic, ParsedRecord, WalReplayResult, u64_max,
}
use mathlib.Core.Path.{subst}
use mathlib.Core.Logic.{if_pos}

-- Replay of the file from an offset applies exactly the records `rs`.
abbrev pub ReplaysFrom : Endian → Bytes → ℕ → List ParsedRecord → Type 0
ReplaysFrom host file offset rs =
    (store : Map)
    → (result : WalReplayResult) × (replay_from_detailed host (some file) offset store
        ≡ ok (result, apply_all rs store))

-- An offset that covers the first records of a log: zero, or the end of their frames.
abbrev pub Covers : Endian → ℕ → List ParsedRecord → Type 0
Covers host offset covered =
    ((offset ≡ 0) × (covered ≡ [])) ⊎ (offset ≡ 24 + length (log_bytes host true 1 covered))

module _ (host : Endian) (generation : ℕ) (covered rest : List ParsedRecord) (offset : ℕ)
    (h : 0 < generation) (g : generation ≤ u64_max) (room : length covered + length rest < u64_max)
    (bound : offset < 2 ^ 63) (s : All (IsStorable host true) rest)
    (at : Covers host offset covered) where
  suffix-Torn :
      (k : ℕ) (tail : Bytes)
      → Torn host true k tail
      → ReplaysFrom host
          (make_header generation ++ (log_bytes host true 1 (covered ++ rest) ++ tail))
          offset
          rest
  suffix-Torn k tail torn store = elim at [
    | inl (zero_offset, nothing) ↦
        let (result, e, recovered) =
          replay-cut_log host generation rest k tail store h g (omega arith) s torn in
        (result, rw (zero_offset, nothing) e)
    | inr ends ↦
        let (result, e, recovered) =
          replay-cut_log_from host generation covered rest k tail store h g room
            (omega (arith, ends)) s torn in
        (result, rw ends e)
  ]

  pub suffix_cut :
      (sequence : ℕ) (r : ParsedRecord) (k : ℕ)
      → sequence < 2 ^ 64
      → IsStorable host true r
      → k < length (frame_bytes host true sequence r)
      → ReplaysFrom host
          (make_header generation
            ++ (log_bytes host true 1 (covered ++ rest)
                ++ take k (frame_bytes host true sequence r)))
          offset
          rest
  suffix_cut sequence r k n storable cut =
      suffix-Torn k (take k (frame_bytes host true sequence r)) (record {
        written = r;
        sequence = sequence;
        sequence_fits = n;
        storable = storable;
        cut = cut;
        tail_eq = refl;
      })

  pub suffix_whole :
      ReplaysFrom host
        (make_header generation ++ log_bytes host true 1 (covered ++ rest))
        offset
        rest
  suffix_whole =
      subst (λ (l : Bytes). ReplaysFrom host (make_header generation ++ l) offset rest)
        (append-nil (log_bytes host true 1 (covered ++ rest)))
        (suffix_cut 0 tombstone 0 (omega arith) (tombstone-IsStorable host)
          (frame_pos host 0 tombstone))

take_nil : (m : ℕ) → ◌≡◌ {A = Bytes} [] (take m [])
take_nil zero = refl
take_nil (suc m) = refl

take_comm : (n m : ℕ) (xs : Bytes) → take n (take m xs) ≡ take m (take n xs)
take_comm zero m xs = take_nil m
take_comm (suc n) zero [] = refl
take_comm (suc n) zero (x ∷ xs) = refl
take_comm (suc n) (suc m) [] = refl
take_comm (suc n) (suc m) (x ∷ xs) = ap (λ (l : Bytes). x ∷ l) (take_comm n m xs)

-- A file that holds nothing.
pub empty-ReplaysFrom :
    (host : Endian) (offset : ℕ) → offset < 2 ^ 63 → ReplaysFrom host [] offset []
unfolding replay_from_detailed replay_opened apply_all
empty-ReplaysFrom host offset bound store =
    (initial_result offset, rw (le→ltb (2 ^ 63 - 1) offset (omega arith)) refl)

module _ (host : Endian) (generation k : ℕ) (short : k < 24) where
  abbrev part : Bytes
  part = take k (make_header generation)

  length-part : length part ≡ k
  length-part = omega (arith, length-take k (make_header generation), length-make_header generation)

  magic_prefix-part : magic_prefix part ≡ true
  unfolding magic_prefix
  magic_prefix-part =
      let e : take 4 part ≡ take (length part) wal_magic =
        take_comm 4 k (make_header generation)
        ∙ ap (take k)
            (ap (take 4) (sym (append-nil (make_header generation))) ∙ take-magic generation [])
        ∙ ap (λ (n : ℕ). take n wal_magic) (sym length-part) in
      if_pos (bytes_discrete (take 4 part) (take (length part) wal_magic)) e true false

  parse_header-part : parse_header part 0 ≡ (false, 0)
  unfolding parse_header
  parse_header-part = ground (arith, length-part)

  -- A file that holds only a part of the header.
  pub header-ReplaysFrom : (offset : ℕ) → offset < 2 ^ 63 → ReplaysFrom host part offset []
  unfolding replay_from_detailed replay_opened apply_all replay_portable
  header-ReplaysFrom offset bound store =
      rw
        (
          le→ltb (2 ^ 63 - 1) offset (omega arith),
          length-part,
          magic_prefix-part,
          parse_header-part,
        )
        (elim (Bool-cases (k == 0)) [
          | inl e ↦ (initial_result offset, rw e refl)
          | inr e ↦ (
            record (initial_result offset) {
              generation = 0;
              status = invalid_header;
              last_good_offset = 0;
              stop_offset = 0;
            },
            rw e refl,
          )
        ])

pub append-empty : (xs ys : List ParsedRecord) → xs ++ ys ≡ [] → ys ≡ []
append-empty [] ys e = e
append-empty (x ∷ xs) ys e = cc

pub All-right :
    (P : ParsedRecord → Type 0) (xs ys : List ParsedRecord) → All P (xs ++ ys) → All P ys
All-right P [] ys h = h
All-right P (x ∷ xs) ys h = All-right P xs ys (h.1)

-- A log that appends keep, when a call on it is at its start.
pub Holds-ReplaysFrom :
    (w : Wal) (covered rest : List ParsedRecord) (offset : ℕ)
    → Holds w (covered ++ rest)
    → Covers w.host offset covered
    → offset < 2 ^ 63
    → length covered + length rest < u64_max
    → ReplaysFrom w.host w.file offset rest
Holds-ReplaysFrom w covered rest offset h at bound room = elim (Bool-cases w.header_pending) [
  | inl pending ↦
      let none_yet = h.fresh pending in
      let no_rest : rest ≡ [] = append-empty covered rest none_yet in
      let file : w.file ≡ [] = h.contents ∙ rw (pending, none_yet) (unfold log_bytes in refl) in
      rw (file, no_rest) (empty-ReplaysFrom w.host offset bound)
  | inr written ↦
      subst (λ (l : Bytes). ReplaysFrom w.host l offset rest) (sym (h.contents ∙ rw written refl))
        (suffix_whole w.host w.generation covered rest offset h.generation_pos h.generation_fits
          room bound (All-right (IsStorable w.host true) covered rest h.storable) at)
]
