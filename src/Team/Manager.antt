-- ===== src/Team/Manager.antt =====
-- src/team/manager.rs, by its parts: what a subagent is made from, the pool behind its lock, and
-- the pool's start and reconfiguration. The laws are in the children named for what they prove.
pub mod Blueprint
pub mod Pool
pub mod Startup
pub mod Invariant
pub mod Operations
pub mod Exchange
