-- ===== src/Wal/Truncate/Fresh.antt =====
-- The log behind `Clear` and `Rotate`.
use concurrent_kv_store.Base.{
  ◌==◌, ◌<◌, not_both, inl, inr, sym, ap, Bool-cases, ltb, ltb→lt, ltb→le, ◌+◌, ◌≡◌, ◌≤◌, [], none,
  true, false, returned, arith, refl,
}
use concurrent_kv_store.Wal.Append.{sync_locked}
use concurrent_kv_store.Wal.Append.Holds.{Holds}
use concurrent_kv_store.Wal.Replay.Written.{log_bytes}
use concurrent_kv_store.Wal.State.{Wal, Io}
use concurrent_kv_store.Wal.Truncate
use mathlib.Core.Path.{subst}
use concurrent_kv_store.Wal.Types.{WalStats, u64_max}

-- The log of the next generation.
abbrev fresh : Wal → WalStats → Wal
fresh w stats = record w {
  file = [];
  output_good = true;
  legacy_v2 = false;
  header_pending = true;
  format_valid = true;
  needs_recovery = false;
  generation = w.generation + 1;
  next_sequence = 1;
  stats = stats;
}

sync-returned :
    (io : Io) (w : Wal)
    → let p = Truncate.sync_unless_buffered io w in p.1 ≡ record w { stats = p.1.stats }
unfolding Truncate.sync_unless_buffered sync_locked
sync-returned io w = ground arith

-- A clear that returns got as far as its last line.
clear-reaches :
    (io : Io) (w : Wal)
    → returned (Truncate.clear io w).0 ≡ true
    → Truncate.clear io w ≡ Truncate.sync_unless_buffered io (fresh w w.stats)
unfolding Truncate.clear Truncate.next_generation
clear-reaches io w = elim (Bool-cases io.before_truncate_hook_throws) [
  | inl a ↦ rw a (λ r. absurd (not_both _ r refl))
  | inr a ↦ elim (Bool-cases (w.generation == u64_max)) [
    | inl b ↦ rw a (rw b (λ r. absurd (not_both _ r refl)))
    | inr b ↦ elim (Bool-cases io.open_fails) [
      | inl c ↦ rw a (rw b (rw c (λ r. absurd (not_both _ r refl))))
      | inr c ↦ elim (Bool-cases io.truncate_fails) [
        | inl d ↦ rw a (rw b (rw c (rw d (λ r. absurd (not_both _ r refl)))))
        | inr d ↦ elim (Bool-cases io.reopen_fails) [
          | inl e ↦ rw a (rw b (rw c (rw d (rw e (λ r. absurd (not_both _ r refl))))))
          | inr e ↦ rw a (rw b (rw c (rw d (rw e (λ r. refl)))))
        ]
      ]
    ]
  ]
]

clear-returned :
    (io : Io) (w : Wal)
    → let p = Truncate.clear io w in returned p.0 ≡ true → p.1 ≡ fresh w p.1.stats
clear-returned io w done = rw (clear-reaches io w done) (sync-returned io (fresh w w.stats))

clear-exhausted :
    (io : Io) (w : Wal) → w.generation ≡ u64_max → returned (Truncate.clear io w).0 ≡ false
unfolding Truncate.clear
clear-exhausted io w e = ground (arith, e)

-- A rotation that returns, of a log without a kept failure whose generation is at most 2^64 - 1,
-- whatever the system answers, leaves a log that accepts appends, holds no records, and has the next
-- generation.
pub rotate-Holds :
    (io : Io) (w : Wal)
    → w.generation ≤ u64_max
    → w.failure ≡ none
    → let p = Truncate.rotate io w in
      returned p.0 ≡ true → Holds p.1 [] × (p.1.host ≡ w.host) × (p.1.generation ≡ w.generation + 1)
unfolding Truncate.rotate log_bytes
rotate-Holds io w g healthy done =
    let p = Truncate.clear io w in
    let e = clear-returned io w done in
    let left : w.generation < u64_max = elim (Bool-cases (ltb w.generation u64_max)) [
      | inl h ↦ ltb→lt w.generation _ h
      | inr h ↦
          absurd
            (not_both _ done (clear-exhausted io w (omega (arith, g, ltb→le w.generation _ h))))
    ] in
    let holds : Holds (fresh w p.1.stats) [] = record {
      v3 = refl;
      open_stream = refl;
      valid = refl;
      recovered = refl;
      healthy = healthy;
      fresh = λ p. refl;
      contents = refl;
      numbered = refl;
      generation_pos = omega arith;
      generation_fits = omega (arith, left);
      storable = tt;
    } in
    (
      subst (λ (v : Wal). Holds v []) (sym e) holds,
      ap (λ (v : Wal). v.host) e,
      ap (λ (v : Wal). v.generation) e,
    )
