-- ===== src/ShmDict/Contents.antt =====
-- What the operations of the dictionary do to its entries.
pub mod Eviction
pub mod Reading
pub mod Inserting
pub mod Integers
pub mod Writing
pub mod Duplicates
pub mod Flush
pub mod Locks
pub mod Room
pub mod Expiry
