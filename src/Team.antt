-- ===== src/Team.antt =====
-- The team of subagents: settings (team/config.rs), subagents (team/subagent.rs), capacity from the
-- host's resources (team/resources.rs) and the manager that hands subagents out (team/manager.rs).
pub mod Config
pub mod Subagent
pub mod Resources
pub mod Manager
