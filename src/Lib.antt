-- ===== src/Lib.antt =====
-- Verification of the coordinator.
--
-- The program is an MCP server through which agents work together. Its command `start` leads a project
-- through phases, from a proposal to the implementation: reviewers agree on each artifact, tasks are
-- assigned, and each task is implemented in a worktree, reviewed, verified and merged. Its peer bus lets
-- sessions register under a name, authenticate with a token, send messages to each other's mailboxes and
-- read them, and wakes a session that opted in. An HTTP server carries the calls, and a lock file keeps
-- a second coordinator out.
--
-- How the parts correspond:
-- - Patterns: the regular expressions of src/core/peer-bus-constants.ts and
--   src/core/session-registry.ts, on the code points of a text.
-- - Message: src/core/message-store.ts. `append` and `load_all` are append and loadAll. The log is its
--   lines and what stands after the last line end, where `append` goes on;
--   `compute_body_byte_length` is computeBodyByteLength.
-- - SessionRegistry: the class of src/core/session-registry.ts. Its state is the record of that name,
--   the maps `sessions` and `wake_states`; Register, Auth, Wake, Drain, Rollback and Disk are
--   register, authenticate, the wake state, drainUnread, snapshotEntry and restoreEntry, and persist,
--   load and reconcile; Locks is withLock with the promises that it chains. Their children prove what
--   each does; Invariant and Unread are about all of them.
-- - PeerBus: the handlers of src/server/tools/peer-bus.ts, registerSessionTool, sendMessageTool and
--   readMessagesTool, in Register, Send and Read, and wrapEnvelope in Envelope. Their state, `Bus`, is
--   the registry, the message log, the contents of registry.json, the audit entries and the
--   notifications that were started. History and Consistent compose the handlers; Linked relates the
--   mailboxes to the log. Bootstrap is bootstrapPeerBus of src/core/peer-bus-bootstrap.ts, which makes
--   a bus of a session's two files.
-- - WakeDispatcher: maybeDispatch of src/core/wake-dispatcher.ts; its child Backends has the tmux and
--   cmux backends of src/core/wake-backends, over a parameter for execFile.
-- - Consensus: evaluateConsensus and the loop of ConsensusLoop of src/core/consensus.ts, with the
--   agents and the human as oracles.
-- - SpawnTracker: src/core/spawn-tracker.ts and src/core/registry.ts, and how invokeAgentTool of
--   src/server/tools/agents.ts starts and ends an invocation. The warning at 80 percent of the budget,
--   Math.floor(maxSession * 0.8), is computed on natural numbers.
-- - Session: the state of src/schema.ts and SessionManager of src/core/session.ts.
-- - Machine: what the phases run on, the session's state and the trace of all answers from outside
--   and of the audit log's entries. An answer is a function of the trace. Its functions return or throw
--   and leave the state that they reached. Keeps and Triple have the rules for invariants and for pre-
--   and postconditions.
-- - Workflow: src/server/tools/workflow.ts and src/phases/base.ts. Assignments is parseTaskAssignments
--   of src/phases/tasks.ts, Phases the other phases and the body of `start` of src/index.ts; Log
--   replays the audit log, Laws, Specs and Tasks are about single phases, and Frame is about what a
--   consensus leaves alone.
-- - Implementation: src/phases/implementation.ts. Steps has the calls, Patch parseGeneratedPatch, Run
--   the loop of runTask. Clearance says from a trace alone when a merge is in order; Stages, Rules,
--   Merges and Safety relate the code to it.
-- - StewardVerifier: src/core/steward-verifier.ts.
-- - CoordinatorLock: src/core/coordinator-lock.ts, as steps of processes on one file; Race is about a
--   stale lock.
-- - HttpServer: startHttpServer and its helpers of src/server/index.ts; Host has those on addresses,
--   Connections and Auth are about the routes.
-- - Text: JavaScript's operations on texts, and searching them.
-- - Dict is JavaScript's Map, an association list in insertion order; Common has shared helpers.
-- - Platform: hashes, hexadecimal, dates and JSON of Node.js are a parameter, with the laws that are
--   relied on; Tests has a small platform that satisfies them.
--
-- How code is rendered:
-- - A method takes the state and returns the new state. An object that is changed in place in a map
--   is set again under its key; the authenticated entry that a handler holds is only read for its
--   name and its workspace, which no call in between changes.
-- - A handler is one step: its critical section runs under the locks of the sessions that it changes.
--   What the clock, the random ids and the file system answer during the call are its inputs, so each
--   failure is a value of an input. persist fails before or after the new file is in place, and append
--   before it has written the line or when it cannot sync it.
-- - A synchronous function reads the clock once. Times are milliseconds since 1970, and a date that
--   does not parse is `none`; `now - x < d` is written `now < x + d`.
-- - Array.prototype.sort is a stable insertion sort by the same comparison.
-- - The requests are what the zod schemas let pass; a field of a wrong type is not represented.
-- - Loops are structural over lists and texts. The `while` loop of Consensus runs on fuel, one more than
--   the cap on the rounds, which is shown to be enough. The loop of runTask has no bound in the code; it
--   runs on any fuel, and running out of it ends the task like an error. The removal of fences from an
--   answer runs on the length of the text, and each round makes the text shorter.
--
-- Not modelled: log output, the bodies' hashes and the times in audit entries, a write to
-- the log that puts a part of a line, a log line that has a message id but no other field of
-- an envelope (taken for a corrupt line), `sessions` given as an array (read as empty), the
-- order that an object gives to keys that look like numbers, and the members that an object inherits: a
-- stored wake key such as `constructor`, which registration and the revalidation at the start refuse, would
-- find one of them in the allowed commands. An object that was read has each key once. In maybeDispatch no other call comes
-- between the probe and the keystrokes. Of the consensus loop the texts of prompts and summaries
-- are left out; the session counts the revisions after the loop, and not if the reviser fails. Of an
-- invocation the agent's process and the persisted counters are left out, and in the phases the updates
-- of these counters. A patch is applied from a file of a fixed name. The reading of a session's file and
-- its JSON text are left out, and so are the walk over the specs' directories, which is an answer from
-- outside. Of the HTTP server the registration of the tools, the parsing of bodies, TLS and the answers
-- to OAuth probes are left out. In the bootstrap of the peer bus the lock's result is an argument, and
-- the exit handlers are left out. The nested locks of withLocks, snapshots, the configuration's schemas,
-- the notifiers, the steward interface, the agents' processes, the shared tools and the VS Code extension
-- are not modelled.
pub mod Common
pub mod Dict
pub mod Platform
pub mod Patterns
pub mod Text
pub mod Message
pub mod SessionRegistry
pub mod PeerBus
pub mod WakeDispatcher
pub mod Consensus
pub mod SpawnTracker
pub mod Session
pub mod Machine
pub mod Workflow
pub mod Implementation
pub mod StewardVerifier
pub mod CoordinatorLock
pub mod HttpServer
pub mod Tests
