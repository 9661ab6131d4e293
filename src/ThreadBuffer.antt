-- ===== src/ThreadBuffer.antt =====
-- `io_threadsafe_buffer` of skate/io/buffer.h: a buffer that producer and consumer threads share.
pub mod Defs
pub mod System
pub mod Turns
pub mod Reads
pub mod Producers
pub mod Limit
pub mod Hungry
pub mod TakeTurn
pub mod Consumers
pub mod Pipe
pub mod Guard
mod Tests
