-- ===== src/Policy.antt =====
-- src/policy: which skills may run, and how much a turn may spend.
pub mod Permissions
pub mod Budgets
