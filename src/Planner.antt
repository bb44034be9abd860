-- ===== src/Planner.antt =====
-- src/planner: plans, their order, and how a plan is drawn up.
pub mod Plan
pub mod Dag
pub mod Slugs
pub mod Hints
pub mod Materialize
pub mod Routes
pub mod Goals
pub mod Comparison
pub mod Analysis
pub mod Decomposition
