-- ===== src/Tools.antt =====
-- src/tool_engine.cpp: the tools, the approval gate before them, and the JSON fields that they read.
pub mod Json
pub mod Engine
pub mod Hands
mod Tests
