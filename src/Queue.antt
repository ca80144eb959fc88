-- ===== src/Queue.antt =====
-- queue: peers ordered by their distance to a key, and a queue behind channels.
pub mod Interface
pub mod Heap
pub mod Distance
pub mod Drain
pub mod Chan
mod Tests
