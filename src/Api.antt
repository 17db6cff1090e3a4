-- ===== src/Api.antt =====
-- The package `api`: the HTTP interface.
pub mod Approval
mod Tests
