-- ===== src/Btree/Node.antt =====
-- src/benchmarks/btree/btree1.c, the work on one node: what the functions of the tree do to the
-- arrays of keys and pointers of a node, and what the children prove of it.
pub mod Defs
pub mod Scan
pub mod Lookup
pub mod Insert
pub mod Split
pub mod SplitNode
pub mod Deletion
pub mod Remove
pub mod Joined
pub mod Merge
pub mod Redistribute
