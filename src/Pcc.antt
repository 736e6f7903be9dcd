-- ===== src/Pcc.antt =====
-- src/pcc: the promotion candidate cache simulation.
pub mod CacheSet
pub mod Cache
pub mod Doubles
pub mod Reuse
pub mod Hawkeye
pub mod Main
