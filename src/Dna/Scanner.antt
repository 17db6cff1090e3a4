-- ===== src/Dna/Scanner.antt =====
-- dna/scanner.py: what a scan reads from the machine, and how it brings the store up to date.
pub mod Known
pub mod Machine
pub mod Reading
mod Yields
pub mod Plain
pub mod Objects
pub mod Update
mod Tests
