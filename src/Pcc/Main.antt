-- ===== src/Pcc/Main.antt =====
-- src/pcc/main.cpp: the run over a trace.
pub mod Defs
pub mod Run
pub mod Phases
pub mod Sound
mod Tests
