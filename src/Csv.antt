-- ===== src/Csv.antt =====
-- The writer of comma-separated values, skate/io/adapters/csv.h.
pub mod Options
pub mod Write
pub mod Reader
pub mod Text
pub mod RoundTrip
pub mod Faults
mod Tests
