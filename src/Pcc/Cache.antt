-- ===== src/Pcc/Cache.antt =====
-- src/pcc/tlb.h, `FunctionalCache`: the definitions, and what its children prove.
pub mod Defs
pub mod Fields
pub mod Ready
pub mod Single
mod Tests
