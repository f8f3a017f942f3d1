-- ===== src/JsonRpc.antt =====
-- src/jsonrpc.mjs: a JSON-RPC peer over the pipes of a child process. `Peer` has its state and
-- operations, `Frames` and `Pending` what they do.
pub mod Peer
pub mod Frames
pub mod Pending
mod Tests
