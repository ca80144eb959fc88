-- ===== src/Ds.antt =====
-- pstoreds: the implementations of the peer store's interfaces over a datastore.
pub mod Record
pub mod Batch
pub mod Cache
pub mod Metadata
pub mod Store
pub mod Book
pub mod Gc
pub mod Options
pub mod KeyBook
