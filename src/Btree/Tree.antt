-- ===== src/Btree/Tree.antt =====
-- src/benchmarks/btree/btree1.c: B+ trees in the heap of nodes.
pub mod Defs
pub mod Find
pub mod Insertion
pub mod Free
pub mod Frame
pub mod Searches
pub mod Update
pub mod Room
pub mod NewRoot
pub mod Grow
pub mod TwoLeaves
pub mod Level
pub mod Range
pub mod InRange
pub mod Deletion
pub mod Delete
pub mod Enough
pub mod Tests
mod LeafTests
