-- ===== src/Metadata.antt =====
-- src/metadata: the checkpoint, the injected faults, recovery and compaction. Commit markers stand
-- with the manifest versions, and the write-ahead log in its own module.
pub mod Checkpoint
pub mod Fault
pub mod Recovery
