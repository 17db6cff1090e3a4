-- ===== src/Dna.antt =====
-- The package `dna`: what the program knows about the machines.
pub mod Scanner
pub mod Models
pub mod Tables
pub mod Store
pub mod Dependents
mod Tests
