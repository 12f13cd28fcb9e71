-- ===== src/Wal/Record.antt =====
-- The payloads and the records of src/persistence/wal.cpp: what `AppendSet` and `AppendDelete` build,
-- and what `parse_record` and `apply_record` do with it.
pub mod Parser
pub mod Payload
pub mod Format
pub mod RoundTrip
