-- ===== src/Wal/State.antt =====
-- The state of a `WriteAheadLog` and the methods that mutate it and may throw. What was written before
-- a throw stays written, so the state comes back beside the error too.
use concurrent_kv_store.Base.{ℕ, Bool, true, false, Option, Bytes, Error, Result, ok, throws, stuck}
use concurrent_kv_store.BinaryIo.{Endian}
use concurrent_kv_store.Wal.Types.{DurabilityPolicy, WalStats}

-- `file` is the contents of the file at `path_`. `output_good` is false while the append stream is
-- closed and after a write to it has failed. `sync_fd` is whether the descriptor is open.
pub record Wal : Type 0 where
  pub host : Endian
  pub file : Bytes
  pub output_good : Bool
  pub policy : DurabilityPolicy
  pub max_batch : ℕ
  pub sync_fd : Bool
  pub legacy_v2 : Bool
  pub header_pending : Bool
  pub format_valid : Bool
  pub needs_recovery : Bool
  pub generation : ℕ
  pub next_sequence : ℕ
  pub stats : WalStats
  pub failure : Option Error

-- What the system answers to one write and flush: all bytes reach the file, or the stream fails after
-- some of them did.
pub data WriteOutcome : Type 0 where
  whole : WriteOutcome
  torn : ℕ → WriteOutcome

-- What the system, and the fault hook, answer in the course of one call. `true` is a failure; for
-- `sync_fails` it is that of the first `fdatasync` that is not interrupted.
pub record Io : Type 0 where
  pub header_write : WriteOutcome
  pub frame_write : WriteOutcome
  pub after_write_hook_throws : Bool
  pub sync_fails : Bool
  pub after_sync_hook_throws : Bool
  pub before_truncate_hook_throws : Bool
  pub open_fails : Bool
  pub inspect_fails : Bool
  pub truncate_fails : Bool
  pub reopen_fails : Bool
  pub offset_fails : Bool

-- Nothing fails.
abbrev pub calm : Io
calm = record {
  header_write = whole;
  frame_write = whole;
  after_write_hook_throws = false;
  sync_fails = false;
  after_sync_hook_throws = false;
  before_truncate_hook_throws = false;
  open_fails = false;
  inspect_fails = false;
  truncate_fails = false;
  reopen_fails = false;
  offset_fails = false;
}

abbrev pub Exec {ℓ} : Type ℓ → Type ℓ
Exec A = Wal → Result A × Wal

abbrev pub continue {ℓ κ} : {A : Type ℓ} {B : Type κ} → Result A → (A → Exec B) → Exec B
continue (ok a) f w = f a w
continue (throws e) f w = (throws e, w)
continue stuck f w = (stuck, w)

infixl 5 ◌>>=◌ ◌>>◌
abbrev pub ◌>>=◌ {ℓ κ} : {A : Type ℓ} {B : Type κ} → Exec A → (A → Exec B) → Exec B
◌>>=◌ m f w = continue (m w).0 f (m w).1

abbrev pub ◌>>◌ {ℓ κ} : {A : Type ℓ} {B : Type κ} → Exec A → Exec B → Exec B
m >> k = m >>= λ _. k

abbrev pub pure {ℓ} : {A : Type ℓ} → A → Exec A
pure a w = (ok a, w)

abbrev pub raise_if : Bool → Error → Exec (Unit {0})
raise_if true e w = (throws e, w)
raise_if false e w = (ok tt, w)

abbrev pub lift {ℓ} : {A : Type ℓ} → Result A → Exec A
lift r w = (r, w)

abbrev pub modify : (Wal → Wal) → Exec (Unit {0})
modify f w = (ok tt, f w)
