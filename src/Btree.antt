-- ===== src/Btree.antt =====
-- src/benchmarks/btree/btree1.c: the B+ tree benchmark.
pub mod Random
pub mod Node
pub mod Tree
pub mod Tests
