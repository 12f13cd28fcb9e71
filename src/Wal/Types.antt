-- ===== src/Wal/Types.antt =====
-- The types of include/persistence/wal.h and the constants of src/persistence/wal.cpp.
use concurrent_kv_store.Base.{ℕ, ◌+◌, ◌-◌, ◌*◌, ◌^◌, Bool, List, [], ◌∷◌, Bytes}

pub data DurabilityPolicy : Type 0 where
  buffered sync group_commit : DurabilityPolicy

pub data WalReplayStatus : Type 0 where
  clean_eof invalid_header partial_record invalid_length invalid_sequence : WalReplayStatus
  invalid_opcode checksum_mismatch partial_payload invalid_payload : WalReplayStatus

pub record WalReplayResult : Type 0 where
  pub applied_operations : ℕ
  pub status : WalReplayStatus
  pub start_offset : ℕ
  pub last_good_offset : ℕ
  pub stop_offset : ℕ
  pub generation : ℕ
  pub last_sequence : ℕ
  pub truncated : Bool

pub record WalStats : Type 0 where
  pub records : ℕ
  pub sync_calls : ℕ
  pub batch_histogram : List ℕ

pub data WalOp : Type 0 where
  set delete : WalOp

pub record ParsedRecord : Type 0 where
  pub op : WalOp
  pub key : Bytes
  pub value : Bytes

-- `static_cast<OpType>(op)`
abbrev pub op_code : WalOp → ℕ
op_code set = 1
op_code delete = 2

abbrev pub max_record_length : ℕ
max_record_length = 64 * 1024 * 1024

abbrev pub max_batch_bytes : ℕ
max_batch_bytes = max_record_length + 8

abbrev pub wal_magic : Bytes
wal_magic = b'K' ∷ b'V' ∷ b'W' ∷ b'3' ∷ []

abbrev pub wal_version : ℕ
wal_version = 3

abbrev pub endian_marker : ℕ
endian_marker = 0x01020304

abbrev pub header_length : ℕ
header_length = 24

-- `std::numeric_limits<std::uint64_t>::max()`
abbrev pub u64_max : ℕ
u64_max = 2 ^ 64 - 1
