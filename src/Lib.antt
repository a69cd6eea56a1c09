-- ===== src/Lib.antt =====
-- PatchLoop: the durable core of a coding agent's runtime.
--
-- A session holds turns and one active task. A process that means to advance a task claims an
-- execution, a lease with a token and a generation that runs out; the guard made of it is shown
-- to the store with every write, so that a holder that was taken over cannot write any more. The
-- writer of a workspace holds a second lease. A tool call becomes an effect: it is prepared, may
-- have to be approved, is claimed, and is committed or settled without having been executed; an
-- effect whose result is not known puts its task into recovery, which an operator's disposition
-- resolves. A control request stops a task before its next effect, and most writes are journalled
-- under the session.
--
-- The files, with the source that each models:
--   Common, Common/Tests, Common/Dict: Boolean tests and lists over the native numbers; a
--     dictionary is an association list in insertion order.
--   Domain, Domain/Tools: src/patchloop/domain.py (Task, ToolCall, ToolResult). Domain/Lifecycle
--     and Domain/Calls hold the theorems on one transition and on sequences of them.
--   Contracts: the errors and guards of src/patchloop/persistence_contracts.py.
--   Session: src/patchloop/session/models.py and SessionEvent of src/patchloop/events.py.
--   Execution/Leases, Effects, Approvals, Controls: src/patchloop/execution/models.py.
--     Execution/Approvals/Binding has the theorems on decisions and consumption.
--   Execution/Driver: the projections and the loop of src/patchloop/execution/driver.py, with the
--     theorem on the loop in Execution/Driver/Loop.
--   Execution/Commands: the records of managed commands of src/patchloop/sandbox.py.
--   Execution/Recovery: validate_recovery_resolution of src/patchloop/execution/recovery.py,
--     with its theorem in Execution/Recovery/Targets.
--   Store and below: FakeStore of src/patchloop/persistence_contracts.py, which states the
--     semantics of the store's contract. Store/State is its state and the monad of its methods;
--     Store/Journal is _journal, with the theorem on its numbers in Store/Journal/Numbering;
--     Store/Journal/Append, Leases, Commands, Writers, Tasks, Effects, Settlement, Preparation,
--     Batches, Approvals, Controls and Recovery are its methods, one function each, under the
--     method's name. The folders of these modules hold the theorems: Leases/Claims, Fencing,
--     Exclusive, Runs and Ended on claims,
--     Leases/Expiry, Survival, Guards and Failures on what the lease calls leave, Writers/Handover
--     and Acquired, Commands/Ended, Journal/Repeats,
--     Tasks/Updates, Effects/Authority and Claims, Approvals/Requests and Resolutions,
--     Settlement/Commits, Recovery/Observations and Resolutions.
--   Store/Lifecycle: the statuses of an effect and their order. Store/Lifecycle/Runs has the sequences
--     of successful calls of the nine methods that write effects, and Histories the theorems on them.
--     The Steps files, Settlement/Unexecuted and Approvals/Settled show for each method what it
--     writes of the effects and the approvals; Execution/Recovery/Retries is what the retry of a recovery needs.
--   Services/Ownership, Upkeep: ExecutionOwnershipManager of src/patchloop/execution/ownership.py,
--     a client of the store. Ownership/Rollback and Acquired show what a failed acquisition leaves,
--     Ownership/Owned what a successful one may do.
--   Services/Approvals: build_approval of src/patchloop/execution/approvals.py.
--   Services/Recovery: RecoveryService of src/patchloop/execution/recovery.py, with theorems on
--     retries in Recovery/Accepted and on confirmed results in Recovery/Confirmed, over Store/Recovery/Retries and Confirmations.
--   PromptCache/Publication: src/patchloop/prompt_cache/publication.py, with theorems on one delta
--     in Publication/Replay, on streams of publications in Streams and on repeated ones in Repeats.
--   Memory/Budget: MemoryBudgetPolicy of src/patchloop/memory/retrieval.py.
--   Samples, Tests and below: a small store, and the theorems at concrete inputs.
--
-- How the code is modelled. An identifier, a token, a fingerprint or another text that the code
-- only compares is a number, with 0 for the empty text; a point in time is a number, and the
-- current time is an argument. A method is a function from the store to its result, or the error
-- that it raises, and the store, in which what was written before an exception stays written.
-- Copies (deepcopy) are the identity on values. Versions and generations are unbounded, as
-- Python's integers are. The loops of the store go over lists that are fixed when they start and
-- are structural recursion, so no fuel is needed. SHA-256 over canonical JSON, the identifiers
-- of journal events and the references of tool results are parameters (Hashing and Env), of
-- which nothing is assumed. Payloads that no code of the model reads (goal, budget, plan,
-- report, the data of an event, the snapshots of a checkpoint, timestamps of creation and
-- update) are left out or stand in one opaque field.
--
-- The loop of RuntimeDriver.run has no bound of its own: it ends when the boundary reports no
-- progress, which is the part of the agent's runtime, so it is on fuel. What stopping an orphaned
-- process reports is a parameter. A published message is its payload under the prefix of its kind,
-- and an item its canonical text, so that rendering and parsing JSON are left out.
--
-- The bounds and patterns that the model classes put on their texts are left out, but for those of
-- Approval and RecoveryDisposition where the recovery service makes them (valid_approval and
-- valid_disposition), over the length of a text, a parameter.
--
-- Not modelled: the SQLite store; the session, approval and effect services over the store,
-- RecoveryService.pending, and the heartbeat thread; the agent's loop, its prompts, tools, process
-- isolation, the rest of memory and of the prompt cache, providers, evaluation and command line, which are I/O or
-- text processing.
pub mod Common
pub mod Domain
pub mod Contracts
pub mod Session
pub mod Execution
pub mod Store
pub mod Services
pub mod PromptCache
pub mod Memory
pub mod Samples
pub mod Tests
