-- ===== src/Pcc/CacheSet.antt =====
-- src/pcc/tlb.h, `CacheSet`: the definitions, and what is proved of them by its children.
pub mod Defs
pub mod Links
pub mod Insertion
pub mod Valid
pub mod Relink
pub mod Order
pub mod Access
pub mod Room
pub mod Insert
pub mod Evict
pub mod Lfu
pub mod Held
pub mod Promotion
pub mod Run
pub mod Keys
pub mod Ready
pub mod Covered
pub mod Tags
pub mod Lru
pub mod Lookups
pub mod Inclusion
pub mod Tests
