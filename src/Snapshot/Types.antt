-- ===== src/Snapshot/Types.antt =====
-- The files of a `Snapshot`, what the system answers to its calls, and the constants of the format.
use concurrent_kv_store.Base.{
  ℕ, ◌*◌, Bool, true, false, Option, Bytes, Error, Result, ok, throws, stuck,
}
use concurrent_kv_store.Wal.State.{WriteOutcome, whole}

pub record SnapshotLoadResult : Type 0 where
  pub loaded : Bool
  pub entry_count : ℕ
  pub wal_offset : ℕ

-- The contents of the file at `path_` and of the one at `path_ + ".tmp"`; `none` where there is none.
pub record Files : Type 0 where
  pub committed : Option Bytes
  pub temp : Option Bytes

-- What the system and the fault hook answer in the course of one call; `true` is a failure.
pub record SnapshotIo : Type 0 where
  pub open_fails : Bool
  pub write : WriteOutcome
  pub after_temp_write_throws : Bool
  pub temp_sync_fails : Bool
  pub after_temp_sync_throws : Bool
  pub rename_fails : Bool
  pub after_rename_throws : Bool
  pub directory_sync_fails : Bool
  pub after_directory_sync_throws : Bool
  pub remove_fails : Bool
  pub remove_temp_fails : Bool

-- Nothing fails.
abbrev pub calm : SnapshotIo
calm = record {
  open_fails = false;
  write = whole;
  after_temp_write_throws = false;
  temp_sync_fails = false;
  after_temp_sync_throws = false;
  rename_fails = false;
  after_rename_throws = false;
  directory_sync_fails = false;
  after_directory_sync_throws = false;
  remove_fails = false;
  remove_temp_fails = false;
}

abbrev pub snapshot_magic : ℕ
snapshot_magic = 0x3153564B

abbrev pub snapshot_version : ℕ
snapshot_version = 1

abbrev pub max_snapshot_field_length : ℕ
max_snapshot_field_length = 64 * 1024 * 1024

-- Methods that mutate the files and may throw.
abbrev pub Exec {ℓ} : Type ℓ → Type ℓ
Exec A = Files → Result A × Files

abbrev pub continue {ℓ κ} : {A : Type ℓ} {B : Type κ} → Result A → (A → Exec B) → Exec B
continue (ok a) f fs = f a fs
continue (throws e) f fs = (throws e, fs)
continue stuck f fs = (stuck, fs)

infixl 5 ◌>>=◌ ◌>>◌
abbrev pub ◌>>=◌ {ℓ κ} : {A : Type ℓ} {B : Type κ} → Exec A → (A → Exec B) → Exec B
◌>>=◌ m f fs = continue (m fs).0 f (m fs).1

abbrev pub ◌>>◌ {ℓ κ} : {A : Type ℓ} {B : Type κ} → Exec A → Exec B → Exec B
m >> k = m >>= λ _. k

abbrev pub raise_if : Bool → Error → Exec (Unit {0})
raise_if true e fs = (throws e, fs)
raise_if false e fs = (ok tt, fs)

abbrev pub lift {ℓ} : {A : Type ℓ} → Result A → Exec A
lift r fs = (r, fs)

abbrev pub modify : (Files → Files) → Exec (Unit {0})
modify f fs = (ok tt, f fs)
