-- ===== src/Store/State.antt =====
-- The members of a `KVStore`, and the member functions that mutate them and may throw.
use concurrent_kv_store.Base.{ℕ, Bool, Option, none, some, List, Error, Result, ok, throws, stuck}
use concurrent_kv_store.Maps.{Map}
use concurrent_kv_store.Snapshot.Types.{Files}
use concurrent_kv_store.Wal.State.{Wal}

-- `shards` holds the data of each shard. `wal` and `snapshot` are `none` where the pointer is null.
pub record Store : Type 0 where
  pub shards : List Map
  pub wal : Option Wal
  pub snapshot : Option Files
  pub writes_since_snapshot : ℕ
  pub checkpoint_requested : Bool
  pub checkpoint_active : Bool
  pub checkpoint_stopping : Bool
  pub checkpoint_epoch : ℕ
  pub checkpoint_error : Option Error

abbrev pub shard_count : ℕ
shard_count = 64

abbrev pub snapshot_interval : ℕ
snapshot_interval = 1000

abbrev pub Exec {ℓ} : Type ℓ → Type ℓ
Exec A = Store → Result A × Store

abbrev pub continue {ℓ κ} : {A : Type ℓ} {B : Type κ} → Result A → (A → Exec B) → Exec B
continue (ok a) f st = f a st
continue (throws e) f st = (throws e, st)
continue stuck f st = (stuck, st)

infixl 5 ◌>>=◌ ◌>>◌
abbrev pub ◌>>=◌ {ℓ κ} : {A : Type ℓ} {B : Type κ} → Exec A → (A → Exec B) → Exec B
◌>>=◌ m f st = continue (m st).0 f (m st).1

abbrev pub ◌>>◌ {ℓ κ} : {A : Type ℓ} {B : Type κ} → Exec A → Exec B → Exec B
m >> k = m >>= λ _. k

abbrev pub pure {ℓ} : {A : Type ℓ} → A → Exec A
pure a st = (ok a, st)

abbrev pub modify : (Store → Store) → Exec (Unit {0})
modify f st = (ok tt, f st)

abbrev pub lift {ℓ} : {A : Type ℓ} → Result A → Exec A
lift r st = (r, st)

-- `if (wal_ != nullptr) …`: a call of the log, and the value where there is none.
abbrev pub on_wal {ℓ} : {A : Type ℓ} → (Wal → Result A × Wal) → A → Exec A
on_wal call otherwise st = elim st.wal [
  | none ↦ (ok otherwise, st)
  | some w ↦ ((call w).0, record st { wal = some (call w).1 })
]

-- `if (snapshot_ != nullptr) …`
abbrev pub on_snapshot {ℓ} : {A : Type ℓ} → (Files → Result A × Files) → A → Exec A
on_snapshot call otherwise st = elim st.snapshot [
  | none ↦ (ok otherwise, st)
  | some fs ↦ ((call fs).0, record st { snapshot = some (call fs).1 })
]
