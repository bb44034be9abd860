-- ===== src/Outbox.antt =====
-- src/telemetry/event_bus.rs, src/telemetry/redis_bus.rs and the table `outbox_events` of
-- src/storage/postgres.rs: events on their way to the stream.
pub mod Events
pub mod Publisher
pub mod Effects
pub mod Running
pub mod Fetch
pub mod Exactly
