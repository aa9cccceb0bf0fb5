-- ===== src/Packet.antt =====
-- src/network/PacketCodec.cpp: the frames of the transfer protocol.
pub mod Words
pub mod Codec
pub mod Socket
pub mod Session
