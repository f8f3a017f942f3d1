-- ===== src/Account.antt =====
-- src/adapters/copilot-account.mjs: the readiness of a Copilot account, and signing in to it.
pub mod Options
pub mod State
pub mod Check
pub mod Readiness
pub mod Choice
pub mod Chosen
pub mod Operation
pub mod Flow
pub mod SignIn
pub mod Quiet
pub mod QuietFlow
pub mod History
pub mod Once
pub mod Invariant
pub mod Cancelling
pub mod Final
pub mod Tests
