-- ===== src/Wal/Append/Partial.antt =====
-- Replay from the offset of a snapshot, of the file that a part of an append leaves.
use concurrent_kv_store.Wal.Append.Outcome.{to_write}
use concurrent_kv_store.Base.{
  All-append, ltb→le, take_all, append_assoc, ltb→lt, ltb, length-append, sym, ap, ◌∷◌, ◌∙◌, inr,
  inl, arith, ◌++◌, true, All, ◌-◌, ◌+◌, ◌⊎◌, [], length, ◌^◌, ◌≡◌, ◌<◌, List, take, Bytes, ℕ, refl,
  Bool-cases,
}
use concurrent_kv_store.Wal.Append.Crash.{log-one}
use concurrent_kv_store.Wal.Append.Holds.{Holds}
use concurrent_kv_store.Wal.Codec.{make_header}
use concurrent_kv_store.Wal.Codec.Header.{length-make_header}
use concurrent_kv_store.Wal.Record.Format.{IsStorable}
use concurrent_kv_store.Wal.Replay.Written.{log_bytes, frame_bytes}
use concurrent_kv_store.Wal.State.{Wal}
use concurrent_kv_store.Wal.Types.{ParsedRecord, u64_max}
use Prim.Native.Nat.{min}
use concurrent_kv_store.Wal.Append.Outcome.{take_short, take_behind}
use mathlib.Core.Path.{subst}
use concurrent_kv_store.Wal.Append.Suffix.{
  ReplaysFrom, Covers, suffix_cut, suffix_whole, header-ReplaysFrom, append-empty, All-right,
}

module _ (w : Wal) (covered rest : List ParsedRecord) (offset : ℕ) (r : ParsedRecord)
    (h : Holds w (covered ++ rest)) (at : Covers w.host offset covered) (bound : offset < 2 ^ 63)
    (storable : IsStorable w.host true r) (room : w.next_sequence < u64_max) where
  abbrev frame : Bytes
  frame = frame_bytes w.host true (1 + length (covered ++ rest)) r

  few : length covered + (length rest + 1) < u64_max
  few = omega (arith, h.numbered, length-append covered rest, room)

  fresh-IsStorable : All (IsStorable w.host true) rest
  fresh-IsStorable = All-right (IsStorable w.host true) covered rest h.storable

  abbrev Either : Bytes → Type 0
  Either file =
      ReplaysFrom w.host file offset rest ⊎ ReplaysFrom w.host file offset (rest ++ r ∷ [])

  longer :
      log_bytes w.host true 1 (covered ++ rest) ++ frame
      ≡ log_bytes w.host true 1 (covered ++ (rest ++ r ∷ []))
  longer =
      sym (log-one w.host (covered ++ rest) r)
      ∙ ap (log_bytes w.host true 1) (append_assoc covered rest (r ∷ []))

  behind_header :
      (k : ℕ)
      → Either
          (make_header w.generation ++ (log_bytes w.host true 1 (covered ++ rest) ++ take k frame))
  behind_header k = elim (Bool-cases (ltb k (length frame))) [
    | inl cut ↦ inl (
        suffix_cut w.host w.generation covered rest offset h.generation_pos h.generation_fits
          (omega (arith, few)) bound fresh-IsStorable at (1 + length (covered ++ rest)) r k
          (omega (arith, h.numbered, room)) storable (ltb→lt k _ cut))
    | inr all ↦ inr (
        subst
          (λ (l : Bytes).
            ReplaysFrom w.host (make_header w.generation ++ l) offset (rest ++ r ∷ []))
          (sym (
            ap (λ (l : Bytes). log_bytes w.host true 1 (covered ++ rest) ++ l)
              (take_all k frame (ltb→le k _ all))
            ∙ longer))
          (suffix_whole w.host w.generation covered (rest ++ r ∷ []) offset h.generation_pos
            h.generation_fits (omega (arith, few, length-append rest (r ∷ []))) bound
            (All-append (IsStorable w.host true) rest (r ∷ []) fresh-IsStorable (storable, tt)) at))
  ]

  -- The cut falls into the header, or behind it.
  first_write : (k : ℕ) → covered ++ rest ≡ [] → Either (take k (make_header w.generation ++ frame))
  first_write k none_yet =
      let header = make_header w.generation in
      let nothing : log_bytes w.host true 1 (covered ++ rest) ≡ [] =
        rw none_yet (unfold log_bytes in refl) in
      elim (Bool-cases (ltb k 24)) [
        | inl short ↦
            let k_eq : k ≡ min k (length header) =
              omega (arith, length-make_header w.generation, ltb→lt k 24 short) in
            let file_eq : take k header ≡ take k (header ++ frame) =
              take_short header frame k ∙ ap (λ (n : ℕ). take n (header ++ frame)) (sym k_eq) in
            inl (
              subst (λ (l : Bytes). ReplaysFrom w.host l offset rest) file_eq
                (rw (append-empty covered rest none_yet)
                  (header-ReplaysFrom w.host w.generation k (ltb→lt k 24 short) offset bound)))
        | inr long ↦
            let k_eq : length header + (k - 24) ≡ k =
              omega (arith, length-make_header w.generation, ltb→le k 24 long) in
            let file_eq : header
                  ++ (log_bytes w.host true 1 (covered ++ rest) ++ take (k - 24) frame)
                ≡ take k (header ++ frame) =
              ap (λ (l : Bytes). header ++ (l ++ take (k - 24) frame)) nothing
              ∙ take_behind header frame (k - 24)
              ∙ ap (λ (n : ℕ). take n (header ++ frame)) k_eq in
            subst Either file_eq (behind_header (k - 24))
      ]

  -- The same of the file that an append leaves, however much of its bytes reached it.
  pub part-ReplaysFrom :
      (k : ℕ) (file : Bytes) → file ≡ w.file ++ take k (to_write w r) → Either file
  part-ReplaysFrom k file e = elim (Bool-cases w.header_pending) [
    | inr written ↦
        let file_eq : file
            ≡ make_header w.generation
              ++ (log_bytes w.host true 1 (covered ++ rest) ++ take k frame) =
          e
          ∙ rw (h.contents, written, h.numbered)
              (append_assoc (make_header w.generation) (log_bytes w.host true 1 (covered ++ rest))
                (take k frame)) in
        subst Either (sym file_eq) (behind_header k)
    | inl pending ↦
        let none_yet = h.fresh pending in
        let empty : w.file ≡ [] = h.contents ∙ rw (pending, none_yet) (unfold log_bytes in refl) in
        let file_eq : file ≡ take k (make_header w.generation ++ frame) =
          e ∙ rw (empty, pending, h.numbered) refl in
        subst Either (sym file_eq) (first_write k none_yet)
  ]
