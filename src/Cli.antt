-- ===== src/Cli.antt =====
-- The command-line tools.
pub mod Options
pub mod Bench
pub mod Versions
pub mod Backupctl
