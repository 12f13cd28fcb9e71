-- ===== src/Runs/Batches.antt =====
-- A queue of three frames and batches of two.
use concurrent_kv_store.Base.{false, ◌∷◌, [], ◌≡◌, ◌++◌, ◌<◌, ◌≤◌, length, arith}
use concurrent_kv_store.Wal.GroupCommit.{take_batch}
use concurrent_kv_store.Wal.GroupCommit.Batch.{take_batch_lem, total}
use concurrent_kv_store.Wal.Types.{max_batch_bytes}

take_batch_lem_example :
    let (batch, rest) = take_batch 2 0 false ((1 ∷ []) ∷ (2 ∷ []) ∷ (3 ∷ []) ∷ []) in
    (batch ++ rest ≡ (1 ∷ []) ∷ (2 ∷ []) ∷ (3 ∷ []) ∷ [])
    × (0 < length batch)
    × (length batch ≤ 2)
    × (total batch ≤ max_batch_bytes)
take_batch_lem_example =
    take_batch_lem 2 (1 ∷ []) ((2 ∷ []) ∷ (3 ∷ []) ∷ []) (omega arith) (omega arith)
