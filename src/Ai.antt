-- ===== src/Ai.antt =====
-- src/ai/default_ai.cpp.
pub mod Paths
pub mod Turn
pub mod Leash
mod Tests
