-- ===== src/IoBuffer.antt =====
-- `io_buffer` of skate/io/buffer.h: a circular buffer that grows.
pub mod Vector
pub mod Defs
pub mod Read
pub mod Contents
pub mod Write
pub mod Take
pub mod Offer
pub mod Queue
pub mod Refine
mod Tests
