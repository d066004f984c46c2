-- ===== src/Peer.antt =====
-- The peer package: peer/message.go (Message), peer/conn.go (Bitfield, Handshake, Extension).
pub mod Message
pub mod Bitfield
pub mod Handshake
pub mod Extension
mod Tests
