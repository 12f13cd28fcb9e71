-- ===== src/Base/Results.antt =====
-- Results of calls that may throw.
use mathlib.Core.Path.{◌≡◌, ap, refl}
use mathlib.Core.Logic.{◌⊎◌, inl, inr}
use mathlib.Core.Bool.{Bool, true, false}

-- The exceptions of the program, one for each message.
pub data Error : Type 0 where
  wal_record_too_large wal_key_too_large wal_value_too_large : Error
  wal_sequence_exhausted wal_generation_exhausted : Error
  wal_header_write_failed wal_frame_write_failed wal_sync_failed : Error
  wal_requires_recovery wal_replay_offset_too_large : Error
  wal_open_failed wal_bad_max_batch wal_truncate_failed wal_truncate_past_eof : Error
  wal_truncate_invalid_prefix wal_offset_failed : Error
  fault_hook_failed : Error
  snapshot_too_many_entries snapshot_key_too_large snapshot_value_too_large : Error
  snapshot_open_failed snapshot_write_failed snapshot_sync_failed snapshot_rename_failed : Error
  snapshot_metadata_failed snapshot_load_failed snapshot_verification_failed : Error
  snapshot_remove_failed store_not_copyable store_not_movable : Error

-- `stuck` is no C++ outcome: a loop of the model ran out of fuel.
pub data Result {ℓ} (A : Type ℓ) : Type ℓ where
  ok : A → Result A
  throws : Error → Result A
  stuck : Result A

infixl 5 ◌>>=◌ ◌>>◌
abbrev pub ◌>>=◌ {ℓ κ} : {A : Type ℓ} {B : Type κ} → Result A → (A → Result B) → Result B
ok a >>= f = f a
throws e >>= f = throws e
stuck >>= f = stuck

abbrev pub ◌>>◌ {ℓ κ} : {A : Type ℓ} {B : Type κ} → Result A → Result B → Result B
m >> k = m >>= λ _. k

-- `if (bad) throw error;`
abbrev pub throw_if : Bool → Error → Result (Unit {0})
throw_if true e = throws e
throw_if false e = ok tt

-- Whether a call returned.
abbrev pub returned {ℓ} : {A : Type ℓ} → Result A → Bool
returned (ok _) = true
returned _ = false

pub ok-injective {ℓ} : {A : Type ℓ} {a b : A} → ok a ≡ ok b → a ≡ b
ok-injective {A} {a} e =
    ap (λ (r : Result A). let v : A = elim r [ ok x ↦ x | throws _ ↦ a | stuck ↦ a ] in v) e

pub ok≢stuck {ℓ} : {A : Type ℓ} {a : A} {r : Result A} → r ≡ ok a → ¬ (r ≡ stuck)
ok≢stuck e s = cc

pub not_both : (b : Bool) → b ≡ true → b ≡ false → ⊥
not_both b t f = cc

pub Result-cases {ℓ} : {A : Type ℓ} (r : Result A) → ((a : A) × (r ≡ ok a)) ⊎ (returned r ≡ false)
Result-cases (ok a) = inl (a, refl)
Result-cases (throws e) = inr refl
Result-cases stuck = inr refl

-- A chain that returned.
pub bind-ok {ℓ κ} :
    {A : Type ℓ} {B : Type κ} (x : Result A) (f : A → Result B) (b : B)
    → (x >>= f) ≡ ok b
    → (a : A) × (x ≡ ok a) × (f a ≡ ok b)
bind-ok (ok a) f b e = (a, refl, e)
bind-ok (throws t) f b e = absurd (not_both false (ap returned e) refl)
bind-ok stuck f b e = absurd (not_both false (ap returned e) refl)
