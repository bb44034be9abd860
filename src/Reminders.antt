-- ===== src/Reminders.antt =====
-- src/scheduler/, src/usecase/send_reminder.rs and the tables of src/storage/postgres.rs that they
-- use: the jobs that send reminders.
pub mod Jobs
pub mod Send
pub mod Worker
pub mod Effects
pub mod Running
pub mod Due
pub mod Retries
pub mod Claims
pub mod Blocking
