-- ===== src/Store/Copies.antt =====
-- Copies of a store.
use concurrent_kv_store.Base.{ℕ, ◌≡◌, Bytes}
use concurrent_kv_store.Store.Data.{get}
use concurrent_kv_store.Store.Shards.{IsStore}
use concurrent_kv_store.Store.State.{Store}

-- A copy finds what its original does.
abbrev pub Copies : (Bytes → ℕ) → Store → Store → Type 0
Copies hash other st =
    IsStore hash st × (st.wal ≡ other.wal) × ((key : Bytes) → get hash key st ≡ get hash key other)
