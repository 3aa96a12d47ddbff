-- ===== src/Lib.antt =====
-- A model of the orchestrator's core: the workflow of a task from a draft to a simulated pull
-- request, the approvals that gate it, the drafting of its specification, the consultations that
-- agents answer, the leases that they take on tasks, and the journals that give each external
-- operation one attempt.
--
-- The parts and their files:
-- Prelude, Table: shared helpers; results that may be refusals, the tests on numbers and texts,
-- and tables sorted by key with what a lookup finds after each statement of SQL.
-- Workflow: the states of orch/engine.py, `EDGES`, `TERMINAL`, `PAUSED` and `allowed`, and paths
-- of transitions.
-- Records: the contracts that the engine reads (orch/contracts.py), the row of a task, its events,
-- the tables of orch/storage.py, and instants as the texts they are stored as.
-- Engine: orch/engine.py. Its children are the event log (Log), approvals (Approvals), cancelling
-- (Cancellation), reconciling an interrupted operation (Recovery), opening a task (Creation),
-- `Store.reconstruct` (Replay), and for proofs Steps, Evidence, Changes, Outcomes, Decisions,
-- Ending, Cleaning and Recovering.
-- Drafts: orch/task_drafts.py, whose calls write through the engine.
-- Roles: the roles and identifiers of orch/agent_sessions.py.
-- Ownership: the registry of orch/storage.py, `deciding` and `advancing` of orch/engine.py; Bound
-- shows what a claim does to the number of live ones, and Advancing what a worker has on record.
-- Sessions: orch/agent_sessions.py and orch/agent_queue.py, over Ownership. Claims and Lifetimes
-- are about a lease from its claim to its release, Offers about the work listed.
-- Journal: orch/github_journal.py, orch/jira_journal.py, orch/journal_revision.py and
-- orch/journal_succession.py. Operations has the calls, Succession the links between journals,
-- Retirement the closing of one, Families the two kinds of journal; Requests makes sequences of
-- stagings, reservations, withdrawals and upgrades; Lives, Limits, Keeping, Chains, Staging,
-- Reconciling, Heirs and Interruption hold proofs.
-- Batches: orch/batches.py. Calls has `create`, `run` and `abandon`; Steps, Running and Journals
-- hold proofs. `Engine.advance` is part of the environment of a run.
-- Consultations: orch/consultations.py, a table of its own and no part of a task's row.
-- Histories: the store through any number of steps. The calls of an operator on Engine and Drafts
-- are steps; so is each event and each transition that a transaction of `advance`, `advancing`,
-- `recover` and `retry_cleanup` writes, with whatever was written before it beside the state, the
-- revision and the count of events; Transactions takes the last three apart in this way.
-- Repository tasks are left aside. Rows has what a step does to a row; Approved is a history with
-- an approval in it.
-- Sessions calls Ownership and the rows of Engine; the journals stand apart, each a file of its
-- own.
--
-- How the state corresponds: a call takes the tables (`World`) and gives the tables it commits, or
-- a refusal, which rolls its transaction back. The session of a call is the `state` and `context`
-- that it has in hand beside the tables. A dictionary key that is absent is `none`, and reading a
-- missing key that the code indexes is a refusal. Identifiers are numbers; those that a call makes
-- are arguments of it, since their generator is not modelled. Each call reads the clock once.
--
-- Parameters: the digests of orch/contracts.py (of a document, and of an approval's scope) and
-- `redact` are arbitrary functions. The locks that other processes hold are an argument of a call.
-- A journal's scopes are an interface (`Family`): their size, digest, task and operation, and
-- whether one reconstructs to itself. Whether a snapshot matches a journal, and what the file
-- system says of two paths, are arbitrary tests. The broker and the cleanup of a workspace are a
-- record of answers (`Broker`).
--
-- Every loop of the code that is modelled goes over a list, except the walk from a journal to
-- those it follows, which reads at most `CHAIN_LIMIT` = 16 of them, as the code does, and then
-- refuses, and the steps of a task in a batch, which are at most 40, as in the code.
--
-- Not modelled: the artifact files with their quotas, so that a snapshot stands in its event,
-- without the redaction with which its text is stored, and a text in its record; what a redacted
-- snapshot reads back as is an argument of the replay; the JSON schemas, which the types replace;
-- processes, and the waiting for a lock; the schemas and integrity checks of the journals' files;
-- the repository workload, to which the engine hands its calls; the operations of `advance`; the
-- broker, the services and their reports.
pub mod Prelude
pub mod Table
pub mod Workflow
pub mod Records
pub mod Engine
pub mod Drafts
pub mod Roles
pub mod Consultations
pub mod Histories
pub mod Ownership
pub mod Sessions
pub mod Journal
pub mod Batches
