-- ===== src/Bencode.antt =====
-- bencode/bencode.go: the value that a Go `any` holds, and the errors; the encoder and the decoder
-- stand in the modules below.
mod Syntax
pub mod Encode
pub mod Decode
pub mod WellFormed
pub mod Maps
pub mod RoundTrip
pub mod Sound
mod Tests
unfoldable pub use Syntax.*
