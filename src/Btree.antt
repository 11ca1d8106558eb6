-- ===== src/Btree.antt =====
-- The nodes of the B+ tree: src/include/homestore/btree/detail.
pub mod Node
pub mod Search
pub mod Keyed
pub mod Ranged
mod Tests
