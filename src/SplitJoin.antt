-- ===== src/SplitJoin.antt =====
-- Splitting and joining of strings, skate/containers/split_join.h.
pub mod Defs
pub mod RoundTrip
mod Tests
