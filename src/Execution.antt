-- ===== src/Execution.antt =====
-- Running a plan: the result of a task (execution/artifacts.rs) and the loop over the plan
-- (execution/scheduler.rs).
pub mod Artifacts
pub mod Events
pub mod Dispatcher
pub mod Scheduler
pub mod Planned
pub mod Drafted
