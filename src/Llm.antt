-- ===== src/Llm.antt =====
-- src/llm: how a route is resolved to a model.
pub mod Broker
