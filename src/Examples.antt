-- ===== src/Examples.antt =====
-- Tests of the definitions and instances of the theorems, on the samples.
pub mod Team
pub mod Execution
pub mod Planner
pub mod Decomposition
pub mod Reminders
pub mod Skills
pub mod Summary
pub mod Outbox
pub mod Memory
pub mod Policy
