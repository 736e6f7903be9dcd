-- ===== src/Gups.antt =====
-- src/benchmarks/gups/gups.c: the random numbers of the update loop.
pub mod Defs
pub mod Linear
pub mod Jump
mod Tests
