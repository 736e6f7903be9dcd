-- ===== src/Pcc/Reuse.antt =====
-- src/pcc/huge_page_reuse.h: the tracker of page reuse with its three TLBs and the promotion cache.
pub mod State
pub mod Defs
pub mod Steps
pub mod Judge
pub mod Summary
pub mod Lookup
pub mod Track
pub mod Run
pub mod Print
pub mod Init
pub mod Tests
