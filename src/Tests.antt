-- ===== src/Tests.antt =====
-- The theorems at concrete inputs.
mod Wal
mod Packets
mod Chunks
mod Manifests
mod Repositories
mod Sessions
mod Sockets
mod Threads
mod Backups
mod Restores
mod Commands
