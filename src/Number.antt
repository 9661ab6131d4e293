-- ===== src/Number.antt =====
-- Numbers in text: `int_decode`, `int_encode`, `fp_decode` and `fp_encode` of skate/io/adapters/core.h.
pub mod Decode
pub mod Encode
pub mod Floating
pub mod Value
pub mod RoundTrip
pub mod Overflow
mod Tests
