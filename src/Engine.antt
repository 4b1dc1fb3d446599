-- ===== src/Engine.antt =====
-- The engine of engine/: the rate controller.
pub mod Abr
mod Tests
