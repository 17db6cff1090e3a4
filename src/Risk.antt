-- ===== src/Risk.antt =====
-- The package `risk`: tiers of commands, and the engine that every shell command passes.
pub mod Patterns
pub mod Classifier
pub mod Engine
mod Tests
