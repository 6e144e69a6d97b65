-- ===== src/Lib.antt =====
-- forme: models and proofs of core parts of the forme agent kernel (crates/).
--
-- The kernel asks an owner for approvals, runs approved actions on backends, and records what happened
-- as events. Each module below is about one part:
-- * Protocol (crates/protocol/src/primitives.rs, event.rs, m4.rs, m2_c.rs): references, enumerations,
--   action parameters, event payloads, and the objects of remote execution and replication. A
--   reference is its text; a time stamp is an integer.
-- * Policy (crates/policy/src/lib.rs): Path is `normalized_path` and `path_within`, Matcher is
--   `ArgMatcher` and `ActionMatcher`, Rules is `merge` and the choice of a rule in
--   `evaluate_detailed`, Envelope is `enforce_envelope`.
-- * Approval (crates/approval/src/lib.rs): `InMemoryApprovalBroker`. Its state is the record
--   `BrokerState`; `request`, `resolve`, `authorize`, `pending` and `take_events` are functions of the
--   same names, and the clock is their argument. A parameter pattern of a grant is a Policy matcher.
-- * Execution (crates/execution/src/remote_ledger.rs): Ledger is `InMemoryExecutorLedger`, FileLedger
--   is `FileExecutorLedger` over a directory that is a map from names to contents. What the file
--   system does in a call is an argument of the call; JSON and the digest of a dispatch id are the
--   parameter `Codec`, of which decoding what was encoded is assumed to give it back.
-- * Execution/Remote (crates/execution/src/remote.rs): Remote is the validation of plans, leases and
--   operations, Executor is `GuardedRemoteExecutor` over the interface `ReplayLedger` that both ledgers
--   fill, Leases is the resolver of bindings, and Dispatch is `RemoteExecutionBackend`. The driver, the
--   peer and the digests are parameters.
-- * Coordination (crates/coordination/src/lib.rs): Contract and Route are the data of a route, Budget is
--   `BudgetLedger` and the parsing of units, Validation is `validate_route`, and Runtime is
--   `RouteRuntime`. A call of the runtime is a function on its state; Runtime.Moves gives the steps of
--   one node of which every call is a chain.
-- * Loop (crates/loop/src/lib.rs, m3_b.rs; crates/models/src/lib.rs): Messages are the messages of a
--   model, Strategy is `LoopStrategySpec` and its registry, Run is `RunCtx` with its operations, and
--   Engine is `ReactiveLoopEngine::drive`. What the context builder and the model answer are arguments.
-- * Store (crates/store/src/projection.rs, sqlite.rs, replica.rs): Projection is the session state and
--   the transcript of a run, Log is `append` and `append_expected` of `SqliteEventStore`, with the
--   projections that they update, and Replica is `ReplicaSqliteStore`. A table is a list of rows or a
--   map from its key, a transaction that fails leaves the tables as they were, and what the database
--   answers to it is an argument.
-- * Base holds tests, results, lists, maps ordered by their keys, text and integers.
--
-- Maps (`BTreeMap`) are lists of entries in the order of their keys, and sets are lists. Errors are
-- constructors named for the messages. A mutex is never found poisoned. The one
-- loop that is not over a list, the queue of `validate_route`, has fuel for one step of each node, which
-- is shown to be enough.
--
-- Not modelled: serialisation, the gateway and the drivers, which are input and output; of sqlite.rs
-- the full-text search, the rebuild, the reading of events and the other tables; `execution_recheck`,
-- which `evaluate_detailed` calls before it looks at the rules; the pattern library and the goal
-- framing of coordination; and the crates that the part list above does not name.
pub mod Base
pub mod Protocol
pub mod Policy
pub mod Approval
pub mod Execution
pub mod Coordination
pub mod Loop
pub mod Store
