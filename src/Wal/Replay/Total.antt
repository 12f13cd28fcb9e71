-- ===== src/Wal/Replay/Total.antt =====
-- Replay of a file with any contents.
use concurrent_kv_store.Base.{
  ◌-◌, if◌then◌else◌, le→ltb, arith, drop, length, ◌^◌, false, true, ◌<◌, suc, ℕ, ◌≡◌, Result,
  Bytes, Bool, Option, none, some, ok, refl,
}
use concurrent_kv_store.BinaryIo.{Endian}
use concurrent_kv_store.Maps.{Map}
use concurrent_kv_store.Wal.Replay.{
  replay_from_detailed, replay_opened, replay_portable, replay_frames,
}
use concurrent_kv_store.Wal.Replay.Loop.{replay_loop-ok}
use concurrent_kv_store.Wal.Types.{WalReplayResult}

-- The call returns a result and a store.
abbrev pub Returns : Result (WalReplayResult × Map) → Type 0
Returns call = (p : WalReplayResult × Map) × (call ≡ ok p)

Returns-if :
    (b : Bool) (x y : Result (WalReplayResult × Map))
    → Returns x
    → Returns y
    → Returns (if b then x else y)
Returns-if true x y p q = p
Returns-if false x y p q = q

module _ (host : Endian) where
  replay_frames-Returns :
      (portable : Bool) (file : Bytes) (offset : ℕ) (result : WalReplayResult) (store : Map)
      → Returns (replay_frames host portable file offset result store)
  unfolding replay_frames
  replay_frames-Returns portable file offset result store =
      replay_loop-ok host portable offset (suc (length (drop offset file))) (drop offset file)
        offset result store (omega arith)

  replay_portable-Returns :
      (file : Bytes) (offset : ℕ) (header : Bool × ℕ) (store : Map)
      → Returns (replay_portable host file offset header store)
  unfolding replay_portable
  replay_portable-Returns file offset (valid, generation) store =
      Returns-if _ _ _ (_, refl)
        (Returns-if _ _ _ (replay_frames-Returns true file _ _ store)
          (replay_frames-Returns true file offset _ store))

  replay_opened-Returns :
      (file : Option Bytes) (offset : ℕ) (store : Map)
      → Returns (replay_opened host file offset store)
  unfolding replay_opened
  replay_opened-Returns none offset store = (_, refl)
  replay_opened-Returns (some file) offset store =
      Returns-if _ _ _ (_, refl)
        (Returns-if _ _ _ (replay_portable-Returns file offset _ store)
          (replay_frames-Returns false file offset _ store))

-- A replay of any file, present or not, from any offset below 2^63 returns a result and a store: it
-- neither throws nor runs out of fuel.
pub replay_from_detailed-Returns :
    (host : Endian) (file : Option Bytes) (offset : ℕ) (store : Map)
    → offset < 2 ^ 63
    → Returns (replay_from_detailed host file offset store)
unfolding replay_from_detailed
replay_from_detailed-Returns host file offset store h =
    rw (le→ltb (2 ^ 63 - 1) offset (omega arith)) (replay_opened-Returns host file offset store)
