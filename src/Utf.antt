-- ===== src/Utf.antt =====
-- skate/containers/utf.h: code points and the three Unicode encodings.
pub mod Unicode
pub mod Encode
pub mod Decode
pub mod Utf8
pub mod Codec
pub mod Utf16
pub mod Utf32
pub mod Ranges
pub mod Codecs
pub mod Iterators
pub mod Strings
mod Tests
