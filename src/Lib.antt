-- ===== src/Lib.antt =====
-- Verification of floe-runtime, a JavaScript library through which an application drives coding agents:
-- Codex over JSON-RPC with a child process, Copilot over its SDK. The files model the core of src/:
--
-- - src/errors.mjs: Errors. A call that may throw returns a `Result`; a fault has its code, text, status.
-- - src/events.mjs: Events (`EventLog`: publish, since, clear), Events/Watch (`watchEvents` as the state of
--   a generator, its two listeners and one `next()`), with proofs in Events/Log and Events/Feed;
--   Events/Refines has its specification, a record of everything.
-- - src/session-reuse.mjs: SessionReuse (`SessionRegistry`).
-- - src/fleet.mjs: Fleet/State (agents, shards, the queue, the turns in flight), Fleet/Queue (`#canAssign` and
--   the scan of `#drain`), Fleet/Admission (`requestAgent`, `run`, `#acquireShard`, `#createShard`, `#drain`,
--   `#admit`), Fleet/Budget (`#recordUsage`, `#recalculateBudget`, `#handleBackendCeiling`), Fleet/Recovery
--   (`#handleShardLost`, `#recoverAgent`), Fleet/Lifecycle (`#wireShard`, `retireAgent`, `setGoal`, `close`,
--   `status`). An asynchronous method is cut at its awaits: each part is a step, and `history` runs any
--   sequence of steps. Proofs are in the other files of Fleet/.
-- - src/jsonrpc.mjs: JsonRpc/Peer (`#onData`, `#dispatch`, `request`, `notify`, `respond`, `reset`), with
--   proofs in JsonRpc/Frames and JsonRpc/Pending.
-- - src/schema.mjs: Schema/Validate (`validate`) and Schema/Extract (`extractStructuredOutput`), over the JSON
--   values of Json.
-- - src/adapters/copilot-tools.mjs: CopilotTools/Patch (`parsePatch`), CopilotTools/Facts (`toolFacts`,
--   `normalizeCopilotToolCall`), CopilotTools/Selection (`resolveCopilotToolSelection`), CopilotTools/Hook
--   (`createCopilotToolHook`), CopilotTools/Session (`prepareCopilotToolSession`), with proofs in
--   CopilotTools/Governed, CopilotTools/Manifest and CopilotTools/Session.
-- - src/system-message.mjs: SystemMessage (layers, `mergeSystemMessageLayers`, the two renderings).
-- - src/permissions.mjs and `#handlePermission` of src/runtime.mjs: Permissions/Decision. The permission
--   requests of src/adapters/codex.mjs: Permissions/Codex. The rest of src/runtime.mjs: Runtime (`#lost`, the
--   timeout of an unanswered request, what is handed on to the peer).
-- - src/compaction.mjs: Compaction.
-- - src/adapters/codex.mjs: Codex (the turns of threads: notifications, completion, waiting for a person) and
--   Codex/Settings (the overrides of a thread's next turn), Codex/Threads (the thread that `run` gets,
--   `retire`), Codex/Quiesce (`quiesce`), Codex/Server (`models`, `resume`, `sweepOrphans`), with
--   proofs in Codex/Turns and Codex/Reuse.
-- - src/adapters/copilot-login-sources.mjs: LoginSources and LoginSources/Discovery, with
--   proofs in LoginSources/Saved.
-- - src/adapters/copilot-account.mjs: Account/Options (`copilotSdkClientOptions`), Account/State and
--   Account/Check (`#check` and what it publishes), Account/Choice (`useExistingLogin`,
--   `forgetExistingLogin`), Account/Operation, Account/Flow and Account/SignIn (the two sign-in flows, cut
--   at their awaits; an operation is shared by the map of active ones and by callbacks, so the operations
--   are a store), Account/History (every order of their steps). The other files of Account/ are proofs.
-- - src/adapters/copilot.mjs: Copilot/Turn and Copilot/Task (`#handleEvent`, `#finishTask`, `interrupt`),
--   Copilot/Ends (the timers of a turn, sending its prompt, `quiesce`), Copilot/Identity
--   (`#assertSessionAccount`), Copilot/Catalogue (`#models`, `#assertModelChoice`), Copilot/Sessions
--   (`#prepareSession`, `#switchModel`), Copilot/Obtain (`#getSession`, `resume`, `retire`), Copilot/Prompt
--   (`promptOptions`), Copilot/Run (`run`, `setModel`, `close`), Copilot/Compact (`compact`).
--   `run` takes what other calls do while it reads the catalogue. The other files of Copilot/ are proofs.
--
-- Prelude has the shared names, Prelude/Map the JavaScript `Map` with text keys, Texts the texts by character.
-- The files named Tests have concrete inputs.
--
-- Parameters are the code that is not in the repository: what the SDK, the policies and the callbacks answer,
-- `JSON.parse`, the clock. The fleet's ids are numbers from a counter, where the source draws random texts;
-- a price and a priority are natural numbers. The fuel of the loop of `#drain` is the length of the queue,
-- of which each round takes an entry; that of the scan for balanced objects is the length of the text, of
-- which each candidate takes a part.
--
-- Not modelled: the start and the close of a child process, the sending of a Codex turn with its retry, the
-- options object of a Copilot session, calls that only go on to the SDK or the server, the single flight of
-- account checks, calls between the awaits of `#getSession`, a `close` or a failing `setModel` during a
-- Copilot turn, the prompt files, and regular expressions over the vendor's text. They are input and
-- output for the most part, or are left for an extension of these files.
pub mod Prelude
pub mod Errors
pub mod Events
pub mod SessionReuse
pub mod Fleet
pub mod JsonRpc
pub mod Json
pub mod Schema
pub mod Texts
pub mod CopilotTools
pub mod SystemMessage
pub mod Permissions
pub mod Compaction
pub mod Codex
pub mod LoginSources
pub mod Account
pub mod Copilot
pub mod Runtime
pub mod Tests
