-- ===== src/Ascii.antt =====
-- The ASCII part of skate/containers/utf.h: classes of characters, digits and letter case. A
-- character is the number of its code.
pub mod Digit
pub mod Case
