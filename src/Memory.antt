-- ===== src/Memory.antt =====
-- src/memory and the table of memories in src/storage/postgres.rs.
pub mod Brain
pub mod Ledger
pub mod Summary
