-- ===== src/Wal/Replay/Begin.antt =====
-- The replay of a file that begins with a written header, up to the loop.
use mathlib.Core.Path.{subst}
use concurrent_kv_store.Base.{
  refl, suc, take_all, drop-drop, ℕ, suc, ◌+◌, ◌^◌, ◌≤◌, ◌<◌, ◌≡◌, sym, ap, ◌∙◌, true, some, ◌++◌,
  arith, Bytes, length, drop, length-append, drop-append,
}
use concurrent_kv_store.BinaryIo.{Endian}
use concurrent_kv_store.Maps.{Map}
use concurrent_kv_store.Wal.Codec.{make_header}
use concurrent_kv_store.Wal.Codec.Header.{take-magic, parse_header-make_header, length-make_header}
use concurrent_kv_store.Wal.Replay.{
  bad_sequence, wal_magic, replay_loop, replay_frames, replay_portable, replay_opened,
  replay_from_detailed, initial_result, magic_prefix,
}
use concurrent_kv_store.Wal.Replay.Loops.{Stands}
use concurrent_kv_store.Wal.Types.{WalReplayResult, u64_max}

-- A file that begins with a written header is replayed from the first frame.
module _ (host : Endian) (generation : ℕ) (rest : Bytes) (store : Map) (h : 0 < generation)
    (g : generation ≤ u64_max) where
  abbrev file : Bytes
  file = make_header generation ++ rest

  pub length-file : length file ≡ 24 + length rest
  length-file =
      length-append (make_header generation) rest
      ∙ ap (λ (n : ℕ). n + length rest) (length-make_header generation)

  pub drop-file : (n : ℕ) → drop (24 + n) file ≡ drop n rest
  drop-file n =
      sym (drop-drop 24 n file)
      ∙ ap (drop n) (
          subst (λ m. drop m file ≡ rest) (length-make_header generation)
            (drop-append (make_header generation) rest))

  pub magic_prefix-file : magic_prefix file ≡ true
  unfolding magic_prefix
  magic_prefix-file =
      let e =
        take-magic generation rest
        ∙ sym (take_all (length file) wal_magic (omega (arith, length-file))) in
      ground (arith, e)

  replay_opened-file :
      (offset : ℕ)
      → replay_opened host (some file) offset store
        ≡ replay_portable host file offset (true, generation) store
  unfolding replay_opened
  replay_opened-file offset =
      ground (arith, length-file, magic_prefix-file, parse_header-make_header generation 0 rest h g)

  -- Where the loop begins.
  abbrev pub begins : ℕ → ℕ → WalReplayResult
  begins start cursor = record (initial_result start) {
    generation = generation;
    last_good_offset = cursor;
    stop_offset = cursor;
  }

  pub replay_from_start :
      replay_from_detailed host (some file) 0 store
      ≡ replay_loop (suc (length rest)) host true 24 rest 24 (begins 0 24) store
  unfolding replay_from_detailed replay_portable replay_frames
  replay_from_start =
      replay_opened-file 0
      ∙ ap
          (λ (input : Bytes).
            replay_loop (suc (length input)) host true 24 input 24 (begins 0 24) store)
          (drop-file 0)

  pub replay_from_offset :
      (n : ℕ)
      → 24 + n < 2 ^ 63
      → replay_from_detailed host (some file) (24 + n) store
        ≡ replay_loop
            (suc (length (drop n rest)))
            host
            true
            (24 + n)
            (drop n rest)
            (24 + n)
            (begins (24 + n) (24 + n))
            store
  unfolding replay_from_detailed replay_portable replay_frames initial_result
  replay_from_offset n bound = ground (arith, replay_opened-file (24 + n), drop-file n)

  pub Stands-at_start : Stands true 24 (begins 0 24) 1 24
  unfolding bad_sequence initial_result
  Stands-at_start = record { good = refl; in_order = refl }
