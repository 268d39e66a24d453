-- ===== src/Lib.antt =====
-- A verification library for the HX Fortress host: the daemon that keeps an organization's AI sessions
-- on its own machines, and the console that its operators sign in to.
--
-- Parts and files. Each file opens with the source that it is about; paths are from the repository's
-- root.
--
-- * src/ui, the console's server. Ui/RateLimit models `RateLimiter` of src/ui/rate-limit.ts (`take`,
--   `sweep`), Ui/Lockout its `LockoutTable` (`state`, `recordFailure`, `recordSuccess`, `isClean`,
--   `isCleanPrincipal`, `sweep`, `snapshot`, `hydrate`). Ui/Users models src/ui/users.ts: the document
--   users.json and `UsersStore` (`create`, `disable`, `remove`, `reset`, `completeSetup`,
--   `bumpSessionEpoch`), whose epochs are how another process revokes what the server holds in memory.
--   Ui/Sessions models src/ui/sessions.ts, `SessionTable`, which checks each request against the
--   document as it is then; Sessions/Edits has what other processes write to it in between.
--   Ui/SsoGrant models src/ui/sso-grant.ts: the verdict on a grant of the workbench
--   (`verifyConsoleGrant`), `ConsumedGrants` and `EntryContexts`.
--   Ui/StoreLock models src/ui/store-lock.ts, the protocol under which users.json and ui.json are
--   written: `reclaimableLock`, `acquire` and `update` of `JsonCasStore`; a mutation of Ui/Users is the
--   function that its `update` is given.
-- * src/console, the daemon's side of the console. Console/IngestControl models
--   src/console/ingest-control.ts: the pause of store writes, clamped, and the daemon's cached view of
--   it. Console/PauseGate models src/console/pause-gate.ts, which asks that view before each write,
--   counts the work in flight and waits for quiet (`awaitQuiesced`). Console/Commands models
--   src/console/commands.ts (`runBootFence` in Boot, `pollCommands` in Drive), the in-flight file of
--   src/console/runtime-files.ts, the query of src/console/command-gateway.ts and the routines of the
--   command table in src/host/postgres/console-plane.ts.
--   Console/Migration and Console/Swap model src/console/migration.ts, the move to another bucket. The
--   first has its objects, over two stores behind the interface of
--   src/modules/session-vault/store/types.ts: `copySession`, `targetIsCurrent`, `copyMissing`,
--   `deltaPass`, `replayTombstones` and `verifyTarget`. The second has the control of
--   `runStorageMigration`: the pause, its heartbeats and the wait for the gate in Pausing, the fence, the
--   cut and the release in Cutting, the modes, the drain and the whole run in Running. What the first
--   does inside the pause is, in the second, a list of pieces with a heartbeat between them.
--   Console/Audit models the residency audit: the verdicts and the roll-up of
--   src/console/audit-verdicts.ts (`verdictFor`, `sessionCheckPasses`, `rollUp`), and in Engine and
--   Pacing src/console/audit-engine.ts (`runResidencyAudit`, `countVerdict`, `Pacer`). Console/Spool
--   models src/console/audit-spool.ts, the file that the write role cannot reach: `AuditSpool`
--   (`append`, `rotate`, `intent`, `outcome`, `event`), `resolveIntent` and `planSpoolReclaim`.
--   Console/Park models src/console/artifact-replay.ts, the park of the sidecar writes that a pause
--   refused: `parkArtifact`, `drainOnce` and `ParkReplayLatch`, with the drain's single effects, between
--   which the daemon may die, as steps in Crashes.
-- * src/ingest. Ingest/Intents models src/ingest/intents.ts: the table in which an uploaded chunk is
--   recorded before it is acknowledged and cleared when it is indexed, so that a dropped index write is
--   seen (`recordChunkIntent`, `clearChunkIntent`, `clearSubsumedChunkIntents`,
--   `closeTerminalChunkIntents`, `staleIntentSessions`, `countStaleIntents`,
--   `pruneClearedChunkIntents`).
-- * src/gateway. Gateway models src/gateway/capability-token.ts (`verifyCapabilityToken`, `isV2Claims`,
--   `verifyGrant`), over what the verification of a signature answers. Gateway/Server models the `fetch`
--   of src/gateway/server.ts with its guards (`authed`, `enforceRoutePurpose`, `mcpGrant`, the principal,
--   the tombstones of src/ingest/delete.ts: `markSessionDeleted`, `isSessionDeleted`) up to the handler of
--   the route. Grants and Gates have what each guard lets through; Authorized, Deleted and Scoped have what
--   holds of the request as a whole.
-- * Prelude has the shared tests, lists, texts and maps; Platform what is taken from the runtime and
--   cannot be read in the repository: digests and dates, with their documented behaviour. Random tokens
--   and identifiers are arguments of the operations that draw them.
--
-- Representation. A number is a native natural number: times and durations are milliseconds since the
-- epoch, and a clock that stands before 1970 is not modelled. A string is the list of its code units.
-- A `Map` is the list of its entries in insertion order, with no key twice where a theorem asks for
-- it; the command table is its rows by primary key. Where a call reads the clock twice with an await
-- between, both readings are arguments (`verify_console_grant`); the seconds of a token are its
-- thousandths. Object state is passed explicitly; an exception is an error value. Calls that overlap
-- are steps (`Step` of Console/PauseGate/Quiet), and what other database principals do between two
-- calls of the daemon is a parameter that moves rows only one way (`Bounded` of
-- Console/Commands/Fencing), as the routines themselves do. A migration runs in a state monad with
-- exceptions (`Step` of Console/Swap) over a world that every reading of the clock and every call
-- moves on; the calls are kept in a list beside its variables. Its source is one state, as it is while
-- the pause holds it still.
--
-- Bounds and fuel. `await_quiesced` runs on fuel, one unit a turn; on a clock that advances between turns
-- the milliseconds to the deadline, and one more, are enough. So do the two waits of a migration's
-- cut. So does `acquire`, whose loop need not end where a reclaimable lock cannot be removed. `update`
-- makes the source's five attempts. The delay of a lockout is computed as the source does, in numbers that
-- do not overflow, and its cap keeps it small.
--
-- Not modelled: the parser of users.json and the cached read of it, `forceUnlock` and the temporary file
-- of an atomic write, password hashing, `validateCommandParams` and the executors of commands (arguments
-- of the poll), progress events and the records of a migration, failures of the disk and of database
-- connections during a fence or a poll, the files of the audit spool and the cleaning of its records, a
-- file call of the park that fails, what the gateway does behind its guards (a commit's staged chunk and
-- dedupe guard, its intent and the work after its answer, the MCP tools), and the rest of the host: the
-- audit's tables, the rest of ingest, queries, tunnel, command line and pages.
pub mod Prelude
pub mod Platform
pub mod Ui
pub mod Console
pub mod Ingest
pub mod Gateway
