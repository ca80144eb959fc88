-- ===== src/Addr.antt =====
-- addr: the order in which addresses are dialled, and sources of addresses.
pub mod Sorting
pub mod Sources
mod Tests
