-- ===== src/Base64.antt =====
-- skate/io/adapters/base64.h.
pub mod Alphabet
pub mod Encode
pub mod Decode
pub mod Form
pub mod Rfc
pub mod Rounds
pub mod RoundTrip
mod Tests
