-- ===== src/Client.antt =====
-- src/network/BackupClient.cpp and src/network/TransferSession.cpp: the payloads of the requests, the
-- chunks of the files, and the upload.
pub mod Payload
pub mod Prepare
pub mod Wire
pub mod Upload
pub mod Resume
