-- ===== src/Memory.antt =====
-- The package `memory`.
pub mod Runbook
