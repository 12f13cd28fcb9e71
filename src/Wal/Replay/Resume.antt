-- ===== src/Wal/Replay/Resume.antt =====
-- Replay of a file that is cut at the last good offset.
use concurrent_kv_store.Wal.Codec.Header.{length-make_header}
use concurrent_kv_store.Base.{
  length-take, length-append, take-append_add, sym, ◌+◌, ◌∙◌, ap, arith, true, suc, true, suc, take,
  length, ◌≡◌, some, ◌++◌, ◌≤◌, ◌<◌, Bytes, ℕ, ok, refl,
}
use concurrent_kv_store.BinaryIo.{Endian}
use concurrent_kv_store.Maps.{Map}
use concurrent_kv_store.Wal.Codec.{make_header}
use concurrent_kv_store.Wal.Replay.{replay_from_detailed}
use concurrent_kv_store.Wal.Replay.Loop.{replay_loop-ok, replay_loop_fuel}
use concurrent_kv_store.Wal.Replay.Prefix.{replay_loop-prefix, finished}
use concurrent_kv_store.Wal.Replay.Begin.{replay_from_start, begins}
use concurrent_kv_store.Wal.Types.{u64_max, WalReplayResult}

-- Let a v3 file hold a header of a generation from 1 to 2^64 - 1 and any bytes behind it. A replay from
-- offset zero returns some result and store, its last good offset lies between the end of the header
-- and the end of the file, and a replay of the file cut at that offset yields the same store and the
-- same result, but for a clean end that stops there.
pub replay-truncated :
    (host : Endian) (generation : ℕ) (rest : Bytes) (store : Map)
    → 0 < generation
    → generation ≤ u64_max
    → let file = make_header generation ++ rest in
      (final : WalReplayResult) × (m : Map) × (replay_from_detailed host (some file) 0 store
        ≡ ok (final, m))
      × (24 ≤ final.last_good_offset)
      × (final.last_good_offset ≤ length file)
      × (replay_from_detailed host (some (take final.last_good_offset file)) 0 store
          ≡ ok (finished final, m))
replay-truncated host generation rest store h g =
    let start = begins host generation rest store h g 0 24 in
    let fuel = suc (length rest) in
    let ((final, m), ran) = replay_loop-ok host true 24 fuel rest 24 start store (omega arith) in
    let (k, short, at, again) = replay_loop-prefix host true 24 fuel rest 24 start store refl ran in
    let cut : take final.last_good_offset (make_header generation ++ rest)
        ≡ make_header generation ++ take k rest =
      ap (λ (n : ℕ). take n (make_header generation ++ rest))
        (at ∙ ap (λ (n : ℕ). n + k) (sym (length-make_header generation)))
      ∙ take-append_add (make_header generation) rest k in
    (
      final,
      m,
      replay_from_start host generation rest store h g ∙ ran,
      omega (arith, at),
      omega (
        arith,
        at,
        short,
        length-append (make_header generation) rest,
        length-make_header generation,
      ),
      rw cut (
          replay_from_start host generation (take k rest) store h g
          ∙ replay_loop_fuel host true 24 (suc (length (take k rest))) fuel (take k rest) 24 start
              store (omega arith) (omega (arith, length-take k rest))
          ∙ again),
    )
