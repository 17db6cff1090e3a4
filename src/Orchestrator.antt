-- ===== src/Orchestrator.antt =====
-- The package `orchestrator`: the agents that answer, and the briefs that they hand over.
pub mod Router
pub mod Planner
pub mod Handoff
mod Tests
