-- ===== src/Outbox/Exactly.antt =====
-- How often an event of the outbox reaches the stream, src/telemetry/redis_bus.rs.
