-- ===== src/Wal/Replay/Prefix.antt =====
-- The replay loop on the part of the stream that it has validated.
use mathlib.Core.Path.{subst}
use concurrent_kv_store.Base.{
  ok-injective, ℕ, zero, suc, ◌+◌, ◌≤◌, ◌≡◌, refl, sym, ap, ◌∙◌, Bool, ◌++◌, [], arith, Bytes,
  length, take, take-append_add, inl, inr, ok,
}
use concurrent_kv_store.BinaryIo.{Endian}
use concurrent_kv_store.Maps.{Map}
use concurrent_kv_store.Wal.Record.Parser.{apply_record}
use concurrent_kv_store.Wal.Replay.{
  reads, stops, read_framing_u32, read_frame, replay_loop, count_record,
}
use concurrent_kv_store.Wal.Replay.Frame.{Taken, read_frame-Taken, read_frame-IsFrame}
use concurrent_kv_store.Wal.Replay.Loop.{
  replay_loop-reads, replay_loop-stops, replay_cases, length-Taken,
}
use concurrent_kv_store.Wal.Types.{WalReplayStatus, clean_eof, WalReplayResult, ParsedRecord}

-- The end of a stream on a frame boundary.
pub read_frame-nil :
    (host : Endian) (portable : Bool) (cursor : ℕ)
    → read_frame host portable [] cursor ≡ stops clean_eof cursor
unfolding read_frame read_framing_u32
read_frame-nil host portable cursor = refl

-- A result with the status of a stream that was read to its end.
abbrev pub finished : WalReplayResult → WalReplayResult
finished result = record result { status = clean_eof; stop_offset = result.last_good_offset }

module _ {host : Endian} {portable : Bool} {input : Bytes} {cursor : ℕ} {parsed : ParsedRecord}
    {sequence next : ℕ} {rest : Bytes}
    (t : Taken host portable input cursor parsed sequence next rest) where
  take-Taken :
      (k : ℕ) → take (8 + length t.bytes + k) input ≡ t.size ++ (t.sum ++ (t.bytes ++ take k rest))
  take-Taken k =
      let e : length t.size + (length t.sum + (length t.bytes + k)) ≡ 8 + length t.bytes + k =
        omega (arith, t.frame.size_width, t.frame.sum_width) in
      ap (take (8 + length t.bytes + k)) t.input_eq
      ∙ subst
          (λ n.
            take n (t.size ++ (t.sum ++ (t.bytes ++ rest)))
            ≡ t.size ++ (t.sum ++ (t.bytes ++ take k rest)))
          e
          (take-append_add t.size _ _
            ∙ ap (λ (l : Bytes). t.size ++ l)
                (take-append_add t.sum _ _
                  ∙ ap (λ (l : Bytes). t.sum ++ l) (take-append_add t.bytes rest k)))

  -- A taken frame is taken from every prefix of the stream that holds it.
  pub read_frame-take :
      (k : ℕ)
      → read_frame host portable (take (8 + length t.bytes + k) input) cursor
        ≡ reads (parsed, sequence, next, take k rest)
  read_frame-take k =
      rw (take-Taken k, t.next_eq)
        (read_frame-IsFrame host portable t.size t.sum t.bytes (take k rest) cursor t.frame)

-- On an empty stream the loop ends at once.
ends_with :
    (host : Endian) (portable : Bool) (offset cursor : ℕ) (result : WalReplayResult) (store : Map)
    (fuel : ℕ)
    → result.last_good_offset ≡ cursor
    → replay_loop (suc fuel) host portable offset [] cursor result store
      ≡ ok (finished result, store)
ends_with host portable offset cursor result store fuel good =
    replay_loop-stops host portable offset [] cursor result store fuel
      (read_frame-nil host portable cursor)
    ∙ ap (λ (n : ℕ). ok (record result { status = clean_eof; stop_offset = n }, store)) (sym good)

module _ (host : Endian) (portable : Bool) (offset : ℕ) where
  -- What the loop leaves on a stream, `final` and `m`.
  abbrev HasPrefix : ℕ → Bytes → ℕ → WalReplayResult → Map → WalReplayResult → Map → Type 0
  HasPrefix fuel input cursor result store final m =
      (k : ℕ) × (k ≤ length input)
      × (final.last_good_offset ≡ cursor + k)
      × (replay_loop fuel host portable offset (take k input) cursor result store
          ≡ ok (finished final, m))

  prefix_ends :
      (fuel : ℕ) (input : Bytes) (cursor : ℕ) (result : WalReplayResult) (store : Map)
      (status : WalReplayStatus) (stop : ℕ)
      → result.last_good_offset ≡ cursor
      → HasPrefix
          (suc fuel)
          input
          cursor
          result
          store
          (record result { status = status; stop_offset = stop })
          store
  prefix_ends fuel input cursor result store status stop good =
      (0, omega arith, omega arith, ends_with host portable offset cursor result store fuel good)

  -- The loop leaves the same on the prefix up to `last_good_offset`, with a clean end.
  pub replay_loop-prefix :
      (fuel : ℕ) (input : Bytes) (cursor : ℕ) (result : WalReplayResult) (store : Map)
      {final : WalReplayResult} {m : Map}
      → result.last_good_offset ≡ cursor
      → replay_loop fuel host portable offset input cursor result store ≡ ok (final, m)
      → HasPrefix fuel input cursor result store final m
  replay_loop-prefix zero input cursor result store good e = unfold replay_loop in cc
  replay_loop-prefix (suc fuel) input cursor result store {final} {m} good e =
      elim (replay_cases host portable offset input cursor result store) [
        | inl end ↦
            subst
              (λ (p : WalReplayResult × Map).
                HasPrefix (suc fuel) input cursor result store p.0 p.1)
              (ok-injective (sym (end.ends fuel) ∙ e))
              (prefix_ends fuel input cursor result store end.status end.stop good)
        | inr step ↦
            let t = read_frame-Taken host portable input cursor step.taken in
            let (k, short, at, again) =
              replay_loop-prefix fuel step.rest step.next
                (count_record portable result step.sequence step.next)
                (apply_record step.parsed store) (unfold count_record in refl)
                (sym (step.goes_on fuel) ∙ e) in
            (
              8 + length t.bytes + k,
              omega (arith, length-Taken t, short),
              omega (arith, at, t.next_eq),
              replay_loop-reads host portable offset (take (8 + length t.bytes + k) input) cursor
                    result store (read_frame-take t k) fuel step.in_order
                  ∙ again,
            )
      ]
