-- ===== src/Memops.antt =====
-- common/memops.c: samples of a channel are converted between floating point and the integers of an
-- audio interface, whose channels are interleaved in memory.
pub mod Float
pub mod Loops
pub mod Out
pub mod In
pub mod Interleave
pub mod Range
pub mod Words
pub mod RoundTrip
pub mod Vector
pub mod Integers
mod Tests
