-- ===== src/Wal/Append.antt =====
-- The append path of src/persistence/wal.cpp under the Buffered and Sync policies.
pub mod Atomic
pub mod Call
pub mod Crash
pub mod Framing
pub mod Holds
pub mod Kept
pub mod Outcome
pub mod Partial
pub mod Series
pub mod Suffix
use concurrent_kv_store.Base.{
  ℕ, zero, suc, ◌+◌, Bool, true, false, not, ◌||◌, none, some, List, [], ◌∷◌, ◌++◌, Bytes, length,
  take, drop, ◌==◌, if◌then◌else◌, Error, Result, ok, throws, stuck, wal_sequence_exhausted,
  wal_header_write_failed, wal_frame_write_failed, wal_sync_failed, wal_requires_recovery,
  fault_hook_failed,
}
use concurrent_kv_store.Base.Results
use concurrent_kv_store.BinaryIo.{Endian, le_bytes}
use concurrent_kv_store.Wal.Codec.{append_le32, append_le64, crc32, make_header}
use concurrent_kv_store.Wal.Record.Payload.{
  checked_record_length, append_primitive, sequence_bytes, set_payload, delete_payload,
}
use concurrent_kv_store.Wal.State.{
  Wal, WriteOutcome, whole, torn, Io, Exec, ◌>>=◌, ◌>>◌, pure, raise_if, lift, modify,
}
use concurrent_kv_store.Wal.Types.{DurabilityPolicy, sync, u64_max}

-- `++histogram[i]`
unfoldable pub bump : ℕ → List ℕ → List ℕ
bump i [] = []
bump zero (n ∷ ns) = suc n ∷ ns
bump (suc i) (n ∷ ns) = n ∷ bump i ns

-- `output_.write(…); output_.flush(); if (!output_) throw error;`
unfoldable pub write_output : WriteOutcome → Bytes → Error → Exec (Unit {0})
write_output outcome bytes error w = elim w.output_good [
  | false ↦ (throws error, w)
  | true ↦ elim outcome [
    | whole ↦ (ok tt, record w { file = w.file ++ bytes })
    | torn n ↦ (throws error, record w { file = w.file ++ take n bytes; output_good = false })
  ]
]

-- `SyncLocked`
unfoldable pub sync_locked : Io → Exec (Unit {0})
sync_locked io w =
    if not w.sync_fd
    then (ok tt, w)
    else if io.sync_fails
    then (throws wal_sync_failed, w)
    else (ok tt, record w { stats = record w.stats { sync_calls = w.stats.sync_calls + 1 } })

-- `EnsureHeaderLocked`
unfoldable pub ensure_header_locked : Io → Exec (Unit {0})
ensure_header_locked io w =
    if w.legacy_v2 || not w.header_pending
    then (ok tt, w)
    else (do
      write_output io.header_write (make_header w.generation) wal_header_write_failed
      modify (λ w. record w { header_pending = false }))
        w

-- `PrepareFrame`: in v3 the checksum and the sequence number are still zero.
unfoldable pub prepare_frame : Endian → Bool → Bytes → Result Bytes
prepare_frame host legacy_v2 payload =
    Results.◌>>=◌ (checked_record_length (length payload + sequence_bytes legacy_v2)) λ size. ok (
      (if legacy_v2
        then append_primitive host 4 (append_primitive host 4 [] size) (crc32 payload)
        else append_le64 (append_le32 (append_le32 [] size) 0) 0)
      ++ payload)

-- `bytes[offset + i] = chunk[i]` for each i
unfoldable pub overwrite : ℕ → Bytes → Bytes → Bytes
overwrite offset chunk bytes = take offset bytes ++ (chunk ++ drop (offset + length chunk) bytes)

-- The bytes of a frame with its sequence number and then its checksum filled in.
unfoldable pub number_frame : ℕ → Bytes → Bytes
number_frame sequence frame =
    let numbered = overwrite 8 (le_bytes 8 sequence) frame in
    overwrite 4 (le_bytes 4 (crc32 (drop 8 numbered))) numbered

-- `FinalizeFrameLocked`
unfoldable pub finalize_frame_locked : Bytes → Exec Bytes
finalize_frame_locked frame w =
    if w.legacy_v2
    then (ok frame, w)
    else if w.next_sequence == u64_max
    then (throws wal_sequence_exhausted, w)
    else (ok (number_frame w.next_sequence frame), record w { next_sequence = w.next_sequence + 1 })

-- `WriteFrameLocked`
unfoldable pub write_frame_locked : Io → Bytes → Exec (Unit {0})
write_frame_locked io frame = do
  ensure_header_locked io
  final ← finalize_frame_locked frame
  write_output io.frame_write final wal_frame_write_failed
  raise_if io.after_write_hook_throws fault_hook_failed
  modify (λ w. record w { stats = record w.stats { records = w.stats.records + 1 } })

-- The rest of the call under the Sync policy.
unfoldable pub sync_frame : Io → DurabilityPolicy → Exec (Unit {0})
sync_frame io sync = do
  sync_locked io
  raise_if io.after_sync_hook_throws fault_hook_failed
  modify (λ w. record w {
    stats = record w.stats { batch_histogram = bump 1 w.stats.batch_histogram };
  })
sync_frame io _ = pure tt

-- `catch (...) { failure_ = std::current_exception(); throw; }`
abbrev pub keep_failure {ℓ} : {A : Type ℓ} → Result A × Wal → Result A × Wal
keep_failure (ok a, w) = (ok a, w)
keep_failure (throws e, w) = (throws e, record w { failure = some e })
keep_failure (stuck, w) = (stuck, w)

-- The guards before a frame is taken.
unfoldable pub check_appendable : Exec (Unit {0})
check_appendable w = elim w.failure [
  | some e ↦ (throws e, w)
  | none ↦ raise_if (not w.format_valid || w.needs_recovery) wal_requires_recovery w
]

-- `AppendPayload` on the path of a policy other than GroupCommit. A log of that policy, which the
-- source hands to the queue and its thread, takes this path here without a sync.
unfoldable pub append_payload : Io → Bytes → Exec (Unit {0})
append_payload io payload w =
    (do
      frame ← lift (prepare_frame w.host w.legacy_v2 payload)
      check_appendable
      λ w. keep_failure ((do write_frame_locked io frame; sync_frame io w.policy) w))
      w

-- `AppendSet`
unfoldable pub append_set : Io → Bytes → Bytes → Exec (Unit {0})
append_set io key value w =
    (do payload ← lift (set_payload w.host w.legacy_v2 key value); append_payload io payload) w

-- `AppendDelete`
unfoldable pub append_delete : Io → Bytes → Exec (Unit {0})
append_delete io key w =
    (do payload ← lift (delete_payload w.host w.legacy_v2 key); append_payload io payload) w
