-- ===== src/Runs.antt =====
-- The theorems at concrete logs and files.
mod Batches
mod Data
mod Frames
mod Lines
mod Log
mod Shards
mod Snapshots
mod Values
mod Processes
mod Sessions
mod Repairs
