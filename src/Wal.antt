-- ===== src/Wal.antt =====
-- src/metadata/WalLog.cpp: the write-ahead log.
pub mod Crc
pub mod Words
pub mod Record
pub mod Log
