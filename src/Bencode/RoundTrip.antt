-- ===== src/Bencode/RoundTrip.antt =====
-- What was encoded is decoded.
pub mod Scalars
pub mod Dicts
pub mod Values
