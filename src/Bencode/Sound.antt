-- ===== src/Bencode/Sound.antt =====
-- What the decoder promises of every input.
pub mod Scalars
pub mod Values
pub mod Total
