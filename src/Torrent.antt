-- ===== src/Torrent.antt =====
-- The torrent package: a module for each of its files, and for torrent/torrent.go Coordinator and Discovery;
-- Swarm puts the workers and the coordinator together.
pub mod Endgame
pub mod Piece
pub mod Writer
pub mod Metadata
pub mod Coordinator
pub mod Discovery
pub mod Session
pub mod Swarm
mod Tests
