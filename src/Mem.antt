-- ===== src/Mem.antt =====
-- pstoremem: the in-memory implementations of the peer store's interfaces.
pub mod SubManager
pub mod AddrBook
pub mod Stream
pub mod Metadata
pub mod KeyBook
mod Tests
