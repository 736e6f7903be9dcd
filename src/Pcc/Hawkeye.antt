-- ===== src/Pcc/Hawkeye.antt =====
-- src/pcc/hawkeye.h: access coverage of regions, buckets by its moving average, promotion from the top.
pub mod Defs
pub mod Buckets
pub mod Promote
pub mod Bound
pub mod Rebucket
pub mod Summary
pub mod Phases
pub mod Faults
pub mod Sound
pub mod Tests
