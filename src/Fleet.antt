-- ===== src/Fleet.antt =====
-- src/fleet.mjs: many agents on a pool of backend processes. State, operations and proofs are in the
-- child modules.
pub mod State
pub mod Queue
pub mod Admission
pub mod Budget
pub mod Recovery
pub mod Lifecycle
pub mod Rules
pub mod Ranking
pub mod Frame
pub mod Turns
pub mod Shards
pub mod Limits
pub mod Spending
pub mod Draining
mod Tests
