-- ===== src/Url.antt =====
-- The class `url` of skate/socket/address.h.
pub mod Percent
pub mod PercentRoundTrip
pub mod Defs
pub mod Text
pub mod Authority
pub mod Path
mod Tests
