-- ===== src/Engine.antt =====
-- The engines of src/core that work on whole versions: backup, verification and restore.
pub mod Check
pub mod Restore
pub mod Backup
