-- ===== src/Lib.antt =====
-- A verification library of personal-ai-brain, a deterministic personal automation core in
-- Python. It models the program's stateful parts as functions on records and proves what makes
-- them correct.
--
-- Parts and files:
-- * Ledger (src/personal_ai_brain/watched_ledger.py with sql/001_watched_event_ledger.sql): the
--   watched-event ledger on SQLite. Ledger/Schema has the tables as lists of records, newest row
--   first, and each INSERT with the constraints that SQLite checks. Ledger/Ingest has
--   `ingest_observation` with its guards, migration boundaries, links and corrections;
--   Ledger/Delivery has the outbound deliveries: creation, transitions, failures and recovery
--   after a restart. A function there is the call on a connection that has no uncommitted writes;
--   Ledger/Session has the calls on a connection with what is committed and what it has written
--   since, commits and rollbacks among them, and Ledger/Session/Lasting what lasts.
-- * Work (src/personal_ai_brain/work_store.py, the class `Runner` of work_runner.py, `fresh` and
--   `allowed_base` of work_contract.py): the durable task records. Work/Store has the disk, a
--   record per task file and an audit directory per task, and `submit`; Work/Transition has
--   `transition`, `cancel`, `storage_failure` and `recovery`; Work/Calls runs them in any order,
--   Work/Recovery, Work/Submission and Work/Results have what recovery, a repeated submission and
--   the published results come to. Work/Runner has `Runner.tick`, the attempt at one task, with
--   calls of the store by others before its steps; Work/Runner/Ends has how it leaves the task.
--   A write into an audit directory that is missing raises, and so does the first write of a call
--   on a device that cannot be written; a call that fails between two of its writes is not
--   modelled.
-- * Usage (src/personal_ai_brain/inference_usage.py with the limits of coding_policy.py): the
--   reservations of paid model requests, a file per task; Usage/Budget has the limits and
--   Usage/Replay what is never repeated or lost.
-- * Agents (src/personal_ai_brain/agent_contract.py, agent_registry.py): contracts read from YAML
--   values, which Prelude/Values has; Agents/Validity and Agents/Manifest show which are accepted;
--   Agents/Registry has the registry.
-- * Core (src/personal_ai_brain/core_agent.py): the read-only collection over the project map and
--   the states, less `render_markdown`. Core/Reports, Core/Returns and Core/Checks have what it
--   reports, when it returns and when it warns.
-- * Quality (src/personal_ai_brain/state_quality.py): the freshness policy and how it is read, and
--   the checks of the schema and of the freshness of every state that the project map names.
--   Quality/Contract describes a valid state apart from the code; Quality/Valid, Quality/Stale,
--   Quality/Refreshed and Quality/Returns have what the checks decide and when they return.
-- * Integrity (src/personal_ai_brain/state_integrity.py): the checks of a rollup against its
--   workstreams, with the sets of paths as lists; Integrity/Consistent and Integrity/Newest have
--   what they decide and which workstream is named.
-- * Rollup (src/personal_ai_brain/rollup_proposal.py): the changes that are proposed for a root
--   state, with Python's `==` on values in Prelude/Equality. Rollup/Applied describes a root to
--   which a proposal was applied; Rollup/Again and Rollup/Agrees have what is then left to propose
--   and what Integrity then reports.
-- * Plex (src/personal_ai_brain/plex_observation.py): a payload as an observation of the ledger.
-- * Reconcile (`reconcile_tautulli` of src/personal_ai_brain/tautulli_reconciliation.py): a batch of
--   source events, normalised by Plex and ingested into Ledger, with the cursor in the same
--   database; Reconcile/Advances has how the cursor moves.
-- * Control (`Worker.process` of src/personal_ai_brain/control_worker.py): one issue of the
--   poller with its durable records, killed before any effect; Control/Once has how often a request
--   is executed, Control/Delivers that an issue is dealt with.
--   Control/Requests (src/personal_ai_brain/control.py) parses requests and has the policy of the
--   capabilities.
--
-- The parts meet in data only: a usage file and a task record share the task's name, and the
-- registry holds contracts. The readers Core, Quality, Integrity and Rollup read the same project
-- map and states, and write nothing. Each part's calls run under the lock or the transaction that the code
-- takes, so that they interleave as wholes, and the sequences of calls here are all interleavings.
--
-- Bounds: numbers are unbounded as in Python; the limits that the code sets itself (256 task files,
-- eight turns, the budgets in millionths of a dollar) are kept as numbers. All functions are
-- structural recursions, so no fuel is used; the power of a Control state is not fuel but the
-- moment at which the process is killed.
--
-- Not modelled: files, processes, sockets, HTTPS and the clock, which are records of functions or
-- values given to the definitions; the executors, of which only
-- the status and the writes are given; the bytes of JSON, YAML and SQL, in place of which stand the
-- values that they denote; and the parts of the program that only do I/O. The hash of a request,
-- the parse of a time or a date and SQLite's assignment of row ids are documented behaviour of
-- libraries. The keys of a YAML mapping are taken to be texts.
pub mod Prelude
pub mod Ledger
pub mod Work
pub mod Usage
pub mod Agents
pub mod Core
pub mod Quality
pub mod Integrity
pub mod Rollup
pub mod Plex
pub mod Reconcile
pub mod Control
