-- ===== src/Schema.antt =====
-- src/schema.mjs: validation of a report and its extraction from an agent's reply.
pub mod Validate
pub mod Extract
mod Tests
