-- ===== src/Lib.antt =====
-- Context Rollover Guard moves a conversation that runs out of context to a fresh thread of an
-- owned client. This library models its transaction core and proves what makes it correct.
--
-- Parts and files:
-- - Session (crg/domain.py): the session state, `validate`, and `transition` along the legal edges
--   with durable evidence. Session/Moves describes the legal moves on their own, Session/Protocol
--   follows chains of calls.
-- - Settings (crg/appserver.py, ExecutionSettings): the settings observed on a thread, the
--   parameters built from them, and the comparison with a new thread; Settings/Requested compares
--   a response with what was requested.
-- - Continuity (crg/continuity.py): the policy `decide` and the test `quiet_point`.
-- - Rollover (crg/coordinator.py, crg/recovery.py): one journal and the requests to the client.
--   Effects has the journal, `_write` and a request; Checks the pure tests of `_context` and `run`;
--   Prepare has `Coordinator.prepare`: the archive of a prompt, of which only the presence counts, the
--   claim of a source thread and the record of the rollover. Claims has these three writes as steps
--   of processes that interleave. Run has `Coordinator.run`, stage by stage; Reconcile the three
--   operations of crg/recovery.py. Claims and Exclusive prove what preparations achieve, Contexts what an intact context stands
--   on, Once, History, Naming, Bound, Named, Records, Kept and Outcomes what runs do, Evidence what a
--   reconciliation stands on.
--   The journal is a record with one optional field for each file; a write is reached only where
--   the read before it found no file, and it stays. Each write and each request has its fate as an
--   argument: it can succeed, fail, or be cut off by the death of the process before or after it
--   took effect. A rollover asks Settings for parameters, Session for the source snapshot and
--   Continuity for the quiet point.
-- - Redemption (crg/redemption.py): the table of reset intents. Table has rows and statements,
--   Redemption the atomic operations, Calls the whole calls and the step relation of processes
--   that interleave on one table.
-- - Timing (crg/timing.py): `union_ms`, over the integer checks of Numbers (crg/events.py); Union
--   compares it with a measure. Timing/Summary has `summarize`, Segments its bounds.
-- - StateStore (crg/state_store.py): Codec has the envelope of a state file, Store the files of one
--   session and `_load`, `read`, `update` and `repair`, each a step with the fates of its atomic
--   replacements; RoundTrip, Atomic and Legal prove.
-- - Protocol (crg/appserver.py): Schema validates the parameters of a request against the installed
--   JSON schema, whose nesting limit of 100 is the fuel; Meets says what a schema asks, Grants and
--   Requests that an accepted request has it. Client is the state that the reader thread and the
--   requesting threads share, a step for each section under its lock; Waiting and Matching prove.
-- - Events (crg/events.py): Events/Fields checks single fields of an observation, Events the whole
--   one and what of it counts; Events/Usage proves.
-- - Ledger (crg/ledger.py): Legacy has `Ledger` with its events in Legacy/Events, Canonical has
--   `CanonicalLedger` with its facts in Canonical/Facts; it takes validated observations from
--   Events. Replay, Intervals, Revisions and Again prove.
-- - Features (crg/features.py): the projection of a confirmed task and the validation of such a
--   snapshot; Features/Snapshot proves.
-- - Retry (crg/retry.py): `read_with_backoff`, bounded retries of read requests.
-- - Owned (crg/owned_client.py, crg/owned_recovery.py): a session that sends prompts on its thread,
--   and the records of its run. Files has the records and the writes, Answer the pending answer of a
--   native Stop (crg/hooks.py) and the stored state of a thread, Session the session and `start`,
--   Submit has `submit` and `complete` over the checks of Events, Walk and Resume have `resume`, and
--   Recovery, Readback, Reconcile and Reconciled have `reconcile_run`. A submission reads
--   StateStore, asks Continuity, and runs Rollover's `prepare` and `run` on the session's registry
--   and journals. Each write, reply and event is an argument of the call, and so are the stores
--   before and after the turn; a record stands for the JSON text of its file, and only the equality
--   of texts is asked for. `emit` is taken not to raise. Evidence, Ready and Resumed prove what a
--   reconciliation does, Received, Returned and Blocks what a submission does; Calls, Kept, Opened,
--   Resumable, Written, Concluded and Answered hold their lemmas.
-- - Config (crg/config.py): the sections, their defaults and their validation; Config/Resolve has
--   `resolve_config`, Updates and Precedence prove where a value comes from.
-- - Predictor (crg/predictor.py): the limit of a thread and the estimate of its next turn, with exact
--   fractions for the floats of percentiles and medians, which are exact below 2^50; the rounded
--   products of the window with a configured fraction are parameters. Predictor/Caution proves.
-- - Json, Errors, Prelude: the values of Python's dictionaries, the exceptions that handlers tell
--   apart, and the names and lemmas that the parts share.
-- - Tests: each theorem at a concrete input, and runs of the model.
--
-- Bounds: the loops with a counter are `search_pages` and `Retry.loop`, whose bounds are
-- `max_pages` and `attempts` of the source, and `validate_value`, whose fuel is the nesting limit
-- of the source: where it runs out, the source refuses the value.
-- Python integers that the code restricts to 0..2^63-1 are integers with that test written out;
-- nothing wraps.
--
-- Parameters: parsing and printing JSON, hashing, path resolution, the parsing and the order of
-- timestamps and pattern matching are the fields of `Session.Platform`, `StateStore.Codec`,
-- `Protocol.Schema.Texts`, `Events.Instants`, `Features.Tools`, `Ledger.Legacy.Clock`,
-- `Ledger.Canonical.Ids` and `Owned.Answer.Host`, and three products of `Predictor.Settled`; what the
-- client, its schema, the archive and the clock answer are arguments.
-- None of them is assumed to have any property, except where a theorem has it as a hypothesis.
--
-- Not modelled: the failures of the coordinator's `_read` on a damaged file or one of another version
-- (the files of a journal are as they were written), turn identifiers that are no text in a readback
-- of the rollover, file layout, locks (an operation under its lock is one atomic sequence), the
-- best-effort event log, what a handoff archive holds, the process of the App Server and
-- `validate_action`, the reader of threads and the JSON lines around an owned session, quotas, the
-- statistics, the hooks but for the pending answer, telemetry, the command line and
-- the release scripts.
pub mod Prelude
pub mod Config
pub mod Predictor
pub mod Owned
pub mod Json
pub mod Errors
pub mod Numbers
pub mod Session
pub mod Settings
pub mod Continuity
pub mod Rollover
pub mod Redemption
pub mod StateStore
pub mod Protocol
pub mod Events
pub mod Ledger
pub mod Features
pub mod Timing
pub mod Retry
pub mod Tests
