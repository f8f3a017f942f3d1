-- ===== src/Permissions.antt =====
-- src/permissions.mjs and `#handlePermission` of src/runtime.mjs: which decision answers a permission
-- request of a backend, and how src/adapters/codex.mjs reads the request and answers it.
pub mod Decision
pub mod Codex
