-- ===== src/Wal/GroupCommit.antt =====
-- The GroupCommit policy of src/persistence/wal.cpp: the queue of `AppendPayload` and the rounds of
-- `WriterLoop`. A request is its frame; the queue is a list of them.
pub mod Batch
use concurrent_kv_store.Base.{
  ℕ, zero, suc, ◌+◌, Bool, true, false, ◌&&◌, List, [], ◌∷◌, ◌++◌, Bytes, length, ltb,
  if◌then◌else◌, Option, none, some, Error, Result, ok, throws, stuck, wal_frame_write_failed,
  fault_hook_failed,
}
use concurrent_kv_store.Wal.Append.{
  bump, write_output, sync_locked, ensure_header_locked, finalize_frame_locked, prepare_frame,
  check_appendable,
}
use concurrent_kv_store.Wal.State.{Wal, Io, Exec, ◌>>=◌, ◌>>◌, pure, raise_if, lift, modify}
use concurrent_kv_store.Wal.Types.{max_batch_bytes}

-- The frames of the next batch and the queue behind it: `left` more frames fit, `batch_bytes` are in
-- the batch, and `started` is whether it has a frame.
unfoldable pub take_batch : ℕ → ℕ → Bool → List Bytes → List Bytes × List Bytes
take_batch zero batch_bytes started queue = ([], queue)
take_batch (suc left) batch_bytes started [] = ([], [])
take_batch (suc left) batch_bytes started (frame ∷ queue) =
    let (batch, rest) = take_batch left (batch_bytes + length frame) true queue in
    if started && ltb max_batch_bytes (batch_bytes + length frame)
    then ([], frame ∷ queue)
    else (frame ∷ batch, rest)

-- The frames with their sequence numbers and checksums, one after the other.
unfoldable pub finalize_batch : List Bytes → Exec Bytes
finalize_batch [] = pure []
finalize_batch (frame ∷ batch) = do
  final ← finalize_frame_locked frame
  frames ← finalize_batch batch
  pure (final ++ frames)

-- The `try` block of a round.
unfoldable pub write_batch : Io → List Bytes → Exec (Unit {0})
write_batch io batch = do
  ensure_header_locked io
  frames ← finalize_batch batch
  write_output io.frame_write frames wal_frame_write_failed
  raise_if io.after_write_hook_throws fault_hook_failed
  modify (λ w. record w { stats = record w.stats { records = w.stats.records + length batch } })
  sync_locked io
  raise_if io.after_sync_hook_throws fault_hook_failed
  modify (λ w. record w {
    stats = record w.stats { batch_histogram = bump (length batch) w.stats.batch_histogram };
  })

-- What the requests of a round are told: the requests, the exception if there is one, and the queue
-- behind the round. After an exception the whole queue is told, and the thread returns.
pub record Round : Type 0 where
  pub told : List Bytes
  pub error : Option Error
  pub queue : List Bytes
  pub log : Wal

unfoldable pub end_round : List Bytes → List Bytes → Result (Unit {0}) × Wal → Round
end_round batch rest (ok _, w) = record { told = batch; error = none; queue = rest; log = w }
end_round batch rest (throws e, w) = record {
  told = batch ++ rest;
  error = some e;
  queue = [];
  log = record w { failure = some e };
}
end_round batch rest (stuck, w) = record { told = batch; error = none; queue = rest; log = w }

-- A round on a queue that is not empty.
unfoldable pub writer_round : Io → List Bytes → Wal → Round
writer_round io queue w =
    let (batch, rest) = take_batch w.max_batch 0 false queue in
    end_round batch rest (write_batch io batch w)

-- `AppendPayload` up to the wait: the queue with the new request.
unfoldable pub enqueue : Bytes → List Bytes → Exec (List Bytes)
enqueue payload queue w =
    (do
      frame ← lift (prepare_frame w.host w.legacy_v2 payload)
      check_appendable
      pure (queue ++ frame ∷ []))
      w
