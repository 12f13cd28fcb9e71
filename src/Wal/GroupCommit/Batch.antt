-- ===== src/Wal/GroupCommit/Batch.antt =====
-- How the writer thread cuts the queue into batches.
use concurrent_kv_store.Base.{
  ltb→le, inr, inl, zero, ltb, ap, ◌+◌, suc, arith, [], ◌∷◌, ◌<◌, ◌++◌, ◌≤◌, Bytes, List, ℕ, refl,
  ◌≡◌, true, false, length, Bool-cases,
}
use concurrent_kv_store.Wal.GroupCommit.{take_batch}
use concurrent_kv_store.Wal.Types.{max_batch_bytes}

-- The bytes of a batch.
unfoldable pub total : List Bytes → ℕ
total [] = 0
total (frame ∷ frames) = length frame + total frames

-- What is promised of a batch that continues one of `batch_bytes` bytes.
pub record Cuts (left batch_bytes : ℕ) (queue : List Bytes) (cut : List Bytes × List Bytes)
    : Type 0 where
  pub whole_queue : cut.0 ++ cut.1 ≡ queue
  pub few : length cut.0 ≤ left
  pub small : batch_bytes + total cut.0 ≤ max_batch_bytes

Cuts-none :
    (left batch_bytes : ℕ) (queue : List Bytes)
    → batch_bytes ≤ max_batch_bytes
    → Cuts left batch_bytes queue ([], queue)
unfolding total
Cuts-none left batch_bytes queue h = record {
  whole_queue = refl;
  few = omega arith;
  small = omega arith;
}

take_batch-Cuts :
    (left batch_bytes : ℕ) (queue : List Bytes)
    → batch_bytes ≤ max_batch_bytes
    → Cuts left batch_bytes queue (take_batch left batch_bytes true queue)
unfolding take_batch total
take_batch-Cuts zero batch_bytes queue h = Cuts-none zero batch_bytes queue h
take_batch-Cuts (suc left) batch_bytes [] h = Cuts-none (suc left) batch_bytes [] h
take_batch-Cuts (suc left) batch_bytes (frame ∷ queue) h =
    elim (Bool-cases (ltb max_batch_bytes (batch_bytes + length frame))) [
      | inl full ↦ rw full (Cuts-none (suc left) batch_bytes (frame ∷ queue) h)
      | inr fits ↦
          let later =
            take_batch-Cuts left (batch_bytes + length frame) queue
              (ltb→le max_batch_bytes (batch_bytes + length frame) fits) in
          rw fits (record {
            whole_queue = ap (λ (l : List Bytes). frame ∷ l) later.whole_queue;
            few = omega (arith, later.few);
            small = omega (arith, later.small);
          })
    ]

-- From a queue that is not empty, whose first frame fits the byte limit of a batch, and with a batch
-- size of at least one, the writer thread takes a batch that is not empty, has at most that many frames
-- and at most that many bytes, and is the front of the queue in its order; what is left of the queue is
-- the rest of it.
pub take_batch_lem :
    (max_batch : ℕ) (frame : Bytes) (queue : List Bytes)
    → 0 < max_batch
    → length frame ≤ max_batch_bytes
    → let (batch, rest) = take_batch max_batch 0 false (frame ∷ queue) in
      (batch ++ rest ≡ frame ∷ queue)
      × (0 < length batch)
      × (length batch ≤ max_batch)
      × (total batch ≤ max_batch_bytes)
unfolding take_batch total
take_batch_lem zero frame queue pos h = absurd (omega arith)
take_batch_lem (suc left) frame queue pos h =
    let later = take_batch-Cuts left (0 + length frame) queue (omega arith) in
    (
      ap (λ (l : List Bytes). frame ∷ l) later.whole_queue,
      omega arith,
      omega (arith, later.few),
      omega (arith, later.small),
    )
