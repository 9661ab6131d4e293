-- ===== src/Json.antt =====
-- JSON of skate/io/adapters/json.h: strings, and values with their arrays and objects.
pub mod Escape
pub mod ReadString
pub mod Form
pub mod Rounds
pub mod RoundTrip
pub mod Value
pub mod WriteValue
pub mod ReadScalar
pub mod ReadValue
pub mod Numbers
pub mod Text
pub mod WriteText
pub mod Concat
pub mod TextHead
pub mod Closing
pub mod Steps
pub mod ReadText
pub mod ValueRoundTrip
pub mod Advance
pub mod Returns
pub mod ReturnsScalar
pub mod ReturnsValue
pub mod CutWords
pub mod Invariant
pub mod Sound
mod Tests
