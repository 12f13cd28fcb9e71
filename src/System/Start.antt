-- ===== src/System/Start.antt =====
-- The first process, on no files, and that a start returns.
use concurrent_kv_store.Base.{
  All, inl, inr, ℕ, ◌≡◌, ◌∙◌, Bytes, [], none, some, ap, sym, refl, ok, true, false, arith, Option,
}
use concurrent_kv_store.BinaryIo.{Endian}
use concurrent_kv_store.Maps.{find}
use concurrent_kv_store.Main.{start}
use concurrent_kv_store.Main.Recovery.{recover-restored}
use concurrent_kv_store.Snapshot.RoundTrip.{IsLoadable}
use concurrent_kv_store.Snapshot.Types.{Files, SnapshotLoadResult}
use concurrent_kv_store.Store.Fresh.{new_store-IsStore, new_store-All, new_store-get}
use concurrent_kv_store.Store.Objects.{new_store}
use concurrent_kv_store.Store.State.{Store}
use concurrent_kv_store.System.{System}
use concurrent_kv_store.System.Restart.{restart-Sound, replays, started}
use concurrent_kv_store.System.Sound.{Sound}
use concurrent_kv_store.Wal.Append.Holds.{Holds}
use concurrent_kv_store.Wal.Open.{new_wal, open_wal}
use concurrent_kv_store.Wal.Open.Inspect.{open_wal-Opened, open_wal-returns}
use concurrent_kv_store.Wal.Replay.Written.{log_bytes}
use concurrent_kv_store.Wal.State.{Wal, Io}
use concurrent_kv_store.Wal.Types.{buffered}

module _ (hash : Bytes → ℕ) (host : Endian) (temp : Option Bytes) where
  -- What there is before the first process.
  abbrev nothing : Files
  nothing = record { committed = none; temp = temp }

  abbrev no_log : Wal
  no_log = record (new_wal host [] buffered 32) { header_pending = true }

  abbrev no_process : System
  no_process = record { store = new_store (some no_log) (some nothing); captured = none }

  no_log-Holds : Holds no_log []
  unfolding new_wal log_bytes
  no_log-Holds = record {
    v3 = refl;
    open_stream = refl;
    valid = refl;
    recovered = refl;
    healthy = refl;
    fresh = λ p. refl;
    contents = refl;
    numbered = refl;
    generation_pos = omega arith;
    generation_fits = omega arith;
    storable = tt;
  }

  no_process-Sound : Sound hash host no_process
  unfolding new_wal new_store
  no_process-Sound = record {
    wal = no_log;
    files = nothing;
    rs = [];
    origin = λ key. none;
    has_wal = refl;
    has_snapshot = refl;
    same_host = refl;
    holds = no_log-Holds;
    room = omega arith;
    memory = record {
      stored = new_store-IsStore hash (some no_log) (some nothing);
      fields = new_store-All hash (some no_log) (some nothing) (All IsLoadable) tt;
      same = new_store-get hash (some no_log) (some nothing);
    };
    backed = record {
      saved = [];
      offset = 0;
      commits = inr (refl, refl, refl);
      saves = record {
        snapshot = record { distinct = tt; fields = tt; count = omega arith; bound = omega arith };
        point = record {
          covered = [];
          rest = [];
          split = refl;
          covers = inl (refl, refl);
          base = λ key. unfold find in refl;
        };
      };
    };
    flight = tt;
  }

  -- A start on no files is sound.
  pub first-Sound :
      (io : Io) (r : SnapshotLoadResult × ℕ) (st : Store)
      → start hash host io [] nothing ≡ ok (r, st)
      → Sound hash host (record { store = st; captured = none })
  unfolding new_wal no_process-Sound
  first-Sound io r st e =
      let (sound, same) = restart-Sound hash host no_process no_process-Sound io r st e in sound

module _ (hash : Bytes → ℕ) (host : Endian) (s : System) (h : Sound hash host s) where
  pub restart-returns :
      (io : Io)
      → io.open_fails ≡ false
      → io.inspect_fails ≡ false
      → io.sync_fails ≡ false
      → (r : SnapshotLoadResult × ℕ) × (st : Store) × (start hash host io h.wal.file h.files
          ≡ ok (r, st))
  unfolding start
  restart-returns io opens reads syncs =
      let (u, opened) = open_wal-returns h.wal h.rs io h.holds h.room opens reads syncs in
      let open_state = open_wal-Opened h.wal h.rs io buffered 32 u h.holds h.room opened in
      let same_open : open_wal host io h.wal.file buffered 32 ≡ ok u =
        ap (λ (host : Endian). open_wal host io h.wal.file buffered 32) (sym h.same_host)
        ∙ opened in
      let b = h.backed in
      let (result, count, exact) =
        recover-restored hash host h.files.committed h.files.temp u b.saved b.offset
          b.saves.point.rest (new_store (some u) (some h.files)) b.saves.snapshot b.commits
          (open_state.1 ∙ h.same_host) (rw (open_state.2) (replays hash host s h)) in
      ((result, count), started hash host s h u, rw same_open (rw exact refl))
