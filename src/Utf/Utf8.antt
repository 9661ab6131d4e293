-- ===== src/Utf/Utf8.antt =====
-- UTF-8 of skate/containers/utf.h against its definition in RFC 3629.
pub mod Form
pub mod Assemble
pub mod RoundTrip
