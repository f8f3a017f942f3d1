-- ===== src/CopilotTools.antt =====
-- src/adapters/copilot-tools.mjs: which Copilot tools a session may use, and the hook that decides each
-- call. A key that an object inherits from its prototype is left out.
pub mod Patch
pub mod Facts
pub mod Selection
pub mod Hook
pub mod Governed
pub mod Manifest
pub mod Session
mod Tests
