-- ===== src/Core.antt =====
-- src/lina_core.cpp: the core that joins the voice, the values, the hands and the memory.
pub mod Gate
pub mod Flags
pub mod Telemetry
pub mod Turn
