-- ===== src/Lib.antt =====
-- A controller that publishes a master data set of a TrueNAS server to diskless stations: an operator
-- creates a publish job, preflight reports and a wizard gate decide whether it may be confirmed, a
-- dispatch writes a task event into an outbox, a relay hands the event to a queue, and a workflow clones
-- the master and points every station's extent to its clone.
--
-- The parts, and the files of the repository that they model:
-- - Domain: the rules without state. Domain.Publish (domain/publish.py, `PublishJob.transition`),
--   Domain.Preflight (domain/preflight.py, `evaluate_preflight`), Domain.Wizard (domain/wizard.py,
--   `evaluate_wizard_gate`), Domain.Station, Domain.Token, Domain.Command, Domain.Outbox,
--   Domain.Snapshot (the files of the same names, and domain/agent.py and domain/provisioning.py).
-- - Store: the database and the repositories (repository/). Store.Database holds the tables as lists of
--   rows and the unique columns; Store.Session is the unit of work of repository/uow.py: code runs on a
--   working copy, `commit` checks the constraints and makes it durable, and what was not committed is
--   dropped. Stations, Jobs, Targets, Artifacts, Outbox, Tokens, Agents, Commands and Rules have one function
--   for each method of the repository, but for those of read models.
-- - Application: the use cases (application/). Draft (publish_commands.py), Confirmation
--   (publish_confirmation.py), Dispatch (publish_dispatch.py), Lifecycle and Enrollment (lifecycle.py), AgentCommands
--   (agent_commands.py and the heartbeat of lifecycle.py), Stations (stations.py), Executor
--   (publish_executor.py), Mappings and Datasets (datasets.py), Retention (dataset_cleanup.py), Rules
--   (process_rules.py), PreflightQuery (preflight.py).
-- - Workflow: the runs that call the storage. Workflow.Fake is `FakePublishWorkflow` of
--   application/publish.py, over a storage adapter; Workflow.TrueNas is `TrueNASPublishWorkflow` of
--   application/truenas_publish.py, over the clients of the API. Adapter and clients are parameters: each
--   call takes the world, and ends as done, failed, or with an unknown outcome. Workflow.Outcome has the
--   calls and the exceptions.
-- - Worker: Worker.Relay is worker/outbox_relay.py, one poll at a time; the broker is a parameter.
--   Worker.Tasks has the messages of worker/tasks.py.
-- - Agent: the agent on a station. Protocol (agent/protocol.py), Heartbeat (heartbeat.py, commands.py) and
--   Enrollment (enrollment.py); the network, the store of the credential and the sleeps are parameters.
-- - Adapter: truenas_adapter/. Calls has the JSON values and the transport, a parameter; Registry, ReadOnly
--   and Write are the allowed methods, the mapping of responses and the checked writes, and give the clients
--   that Workflow.TrueNas takes; FakeWrite and FakeStorage are the adapters in memory. Rpc is
--   transport.py over a socket; its time limit is the number of messages that arrive within it.
-- - Common: the Boolean tests, lists, texts and identifiers that the code uses of Python. Tests: the
--   theorems at concrete inputs.
--
-- A text is a list of code points, an identifier a number, an instant a number of microseconds in UTC.
-- Random identifiers, hashes, secrets, signatures, `str.casefold` and the clock are parameters. An
-- exception is an error value, an illegal transition `none`. Each loop runs over a list that is there
-- before it starts, or over a number fixed before it: the attempts that are left, the messages that arrive
-- within a time limit. Recursion is on that list or number, and there is no other fuel. Statements of a unit of work run
-- one after the other; where the code opens two units, the database of the second is a parameter.
--
-- Not modelled: foreign keys, CHECK constraints and column lengths of the tables, and the random key
-- of a snapshot's row; database collations
-- (names are ordered by code points); negative numbers among the identifiers of the API; the normalisation of
-- host data; read models; the agent's collectors, configuration, services and access to Windows, and the
-- floating-point seconds of agent/backoff.py; the socket and the composition of the adapters
-- (truenas_adapter/runtime.py); the HTTP routes (presentation/); the wiring of the worker
-- and its actors; migrations and scripts.
pub mod Common
pub mod Domain
pub mod Store
pub mod Application
pub mod Workflow
pub mod Worker
pub mod Adapter
pub mod Agent
pub mod Tests
