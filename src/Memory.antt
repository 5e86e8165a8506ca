-- ===== src/Memory.antt =====
-- src/memory_module.cpp: how memories are kept.
pub mod Sweep
pub mod Upkeep
