-- ===== src/Lib.antt =====
-- Verification of concurrent-kv-store, a sharded in-memory key-value store that is made durable by a
-- write-ahead log and by snapshots.
--
-- The program. KVStore (src/store/kv_store.cpp) keeps the data in shards. Each SET and DELETE is first
-- appended to the write-ahead log (src/persistence/wal.cpp); checkpoints and compactions write the whole
-- map to a snapshot file (src/persistence/snapshot.cpp), which records the offset of the log that it
-- covers. Recovery loads the snapshot and replays the log from that offset. Both formats share the
-- helpers of include/persistence/binary_io.h. A command parser and a command
-- loop (src/parser/cli_parser.cpp, src/server/cli_server.cpp) stand in front of the store.
--
-- Modules and what they model.
--   Base: shared names, tests on numbers, lists measured by native numbers, results of calls that throw.
--   BinaryIo: include/persistence/binary_io.h. Bytes are natural numbers below 256; the byte order of the
--     host, which decides what reinterpret_cast and memcpy see, is an argument.
--   Maps: std::unordered_map<std::string, std::string> as an association list without repeated keys.
--   Wal.Types, Wal.Codec: the constants, append_le32, append_le64, consume_le, crc32 with its table,
--     make_header and parse_header.
--   Wal.Record: parse_record and apply_record (Parser), the payloads of AppendSet and AppendDelete
--     (Payload), and an independent description of the layout (Format).
--   Wal.Replay: ReplayFromDetailed. A stream is the list of the bytes not yet read; read_frame is one
--     round of the loop up to the parsed record, replay_loop the loop.
--   Wal.State, Wal.Append: the members of WriteAheadLog as a record, with the contents of the file, and
--     the path of AppendPayload under the Buffered and Sync policies down to SyncLocked. A log whose
--     policy is GroupCommit takes the same path here, without a sync; its own, by way of the queue, is not
--     composed with it. What the system and the fault
--     hook answer during one call is a value of Io; a failed write leaves any first part of its bytes.
--   Wal.GroupCommit: the rounds of WriterLoop: the cut of the queue into batches, the write and the sync
--     of one, and what the requests are told.
--   Wal.Truncate, Wal.Open: Clear, Rotate, TruncateTo, ReplayFromAndTruncate, CurrentOffset, the
--     constructor and the statistics.
--   Snapshot: Save, SaveVerified, Verify, Load and Clear on the committed and the temporary file.
--   Store: the shards with Get, Contains, Size, Clear, Set and Delete (Data), ClearPersistence,
--     SaveSnapshot, CompactPersistence, LoadSnapshot and ReplayFromWal (Persistence), the rounds of
--     CheckpointLoop (Checkpoint), and the constructors, copies and moves (Objects). std::hash is an
--     argument of what uses it.
--   Cli: Trim, SplitWhitespaceView and ToUpper of src/common/string_utils.cpp in the "C" locale, and
--     JoinTokens and Parse of src/parser/cli_parser.cpp.
--     What it means that a line reads as some tokens is described apart (Reading), and so are the
--     forms of the commands (Requests).
--   Server: src/server/cli_server.cpp: Execute and the loop of Run. The output is a list of responses,
--     one value for each message.
--   Main: src/main.cpp: the log, the snapshot and the store that a process starts with, their recovery,
--     and the program around the command loop.
--   System: the running process as a step relation. Calls of the store and the two halves of a background
--     checkpoint, the capture under the locks and the save behind them, follow each other in any order; a
--     step may also end the process and start another on its files.
--   Runs: the theorems at concrete logs and files.
--
-- State and errors. A member function is a function from its arguments and the state to a result and the
-- state; the state comes back beside an exception too, since what was written stays written. Exceptions
-- are values of Error, by the place that throws. Machine integers are natural numbers with the bounds of
-- their type written out where the code checks or wraps them. The lock of the log serialises its member
-- functions, so each is one step.
--
-- Bounds and fuel. The replay loop runs on fuel, one more than the number of bytes left in the stream.
-- Each round takes at least nine bytes, so that is enough.
--
-- What is storable. A record is storable when it fits the length limit of 64 MiB that writer and reader
-- share, and a DELETE carries no value.
--
-- Not modelled. The waits and the timer of the group-commit thread; the locks of the store, under which
-- each operation is one step; the text of the help and of the info, and the version, which the build sets.
-- CLEAR PERSISTENCE is modelled, but is no step of System, since it leaves the memory and empties the
-- disk on purpose. A SET or a DELETE is a step of System when it returns, or throws and leaves the log as it
-- was; what one that fails while the log is written leaves on the disk is stated apart. The store calls the log by the append path of the Buffered and Sync policies. A fault of the file system
-- beyond what Io says, such as bytes that change after they were written, is outside the model. The
-- checksum is a function that is computed, and no strength of it is assumed. Tests, benchmarks and scripts
-- are not part of the program.
pub mod Base
pub mod BinaryIo
pub mod Cli
pub mod Main
pub mod Maps
pub mod Runs
pub mod Server
pub mod Store
pub mod System
pub mod Wal
pub mod Snapshot
