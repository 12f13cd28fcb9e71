-- ===== src/Snapshot/Commit.antt =====
-- The committed file behind `SaveVerified` of a map that the format can hold.
use concurrent_kv_store.Base.{
  arith, ◌≡◌, ◌⊎◌, ◌∙◌, ◌<◌, ◌^◌, inl, inr, length, ℕ, Bytes, some, Option, ok, returned, true, All,
  ap, Error,
}
use concurrent_kv_store.BinaryIo.{Endian}
use concurrent_kv_store.Maps.{Map, IsMap}
use concurrent_kv_store.Snapshot.Atomic.{save-Replaces}
use concurrent_kv_store.Snapshot.RoundTrip.{snapshot_bytes, IsLoadable, write_lem}
use concurrent_kv_store.Snapshot.Types.{Files, SnapshotIo}
use concurrent_kv_store.Snapshot.Save.{save, save_verified}

-- A map and an offset that a snapshot can hold.
pub record IsSnapshot (m : Map) (offset : ℕ) : Type 0 where
  pub distinct : IsMap m
  pub fields : All IsLoadable m
  pub count : length m < 2 ^ 32
  pub bound : offset < 2 ^ 63

save_verified-save :
    (host : Endian) (io : SnapshotIo) (m : Map) (offset : ℕ) (fs : Files)
    → ((save_verified host io m offset fs).1 ≡ (save host io m offset fs).1)
      × (returned (save_verified host io m offset fs).0 ≡ true
          → (save host io m offset fs).0 ≡ ok tt)
unfolding save_verified
save_verified-save host io m offset fs = ground arith

-- The committed file is the one before or the whole snapshot, and the latter if the call returns.
pub save_verified-commits :
    (host : Endian) (io : SnapshotIo) (m : Map) (offset : ℕ) (fs : Files)
    → IsSnapshot m offset
    → let p = save_verified host io m offset fs in
      ((p.1.committed ≡ fs.committed) ⊎ (p.1.committed ≡ some (snapshot_bytes host m offset)))
      × (returned p.0 ≡ true → p.1.committed ≡ some (snapshot_bytes host m offset))
save_verified-commits host io m offset fs h =
    let (same, done) = save_verified-save host io m offset fs in
    let (replaces, returns) = save-Replaces host io m offset fs in
    let written = write_lem host m offset h.distinct h.fields h.count (omega (arith, h.bound)) in
    let old : Option Bytes = (save_verified host io m offset fs).1.committed in
    let e : old ≡ (save host io m offset fs).1.committed = ap (λ (f : Files). f.committed) same in
    let contents = ap (λ (p : Bytes × Option Error). some p.0) written in
    (
      elim replaces [ inl kept ↦ inl (e ∙ kept) | inr new ↦ inr (e ∙ new.1 ∙ contents) ],
      λ r. let (_, committed) = returns (done r) in e ∙ committed ∙ contents,
    )
