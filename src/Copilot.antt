-- ===== src/Copilot.antt =====
-- src/adapters/copilot.mjs: the Copilot adapter over the vendor's SDK.
pub mod Turn
pub mod Task
pub mod Ends
pub mod Settles
pub mod Turns
pub mod Shells
pub mod Identity
pub mod Catalogue
pub mod Sessions
pub mod Obtain
pub mod Verified
pub mod Prompt
pub mod Run
pub mod Compact
pub mod Tests
