-- ===== src/Server.antt =====
-- src/network/BackupServer.cpp: the payloads of the requests, what the server does for each packet, and
-- the loop of one connection.
pub mod Fields
pub mod Put
pub mod Handle
pub mod Connection
