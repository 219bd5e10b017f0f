-- ===== src/Lib.antt =====
-- aso-node-recovery: the recovery of 3X-UI nodes, as a model of the repository's Python code.
--
-- The program watches nodes, and replaces the server of a node that failed: it creates a new VPS at a
-- cloud provider, checks that its address is reachable, deploys 3X-UI there, points the master panel
-- at it, and only then deletes the old VPS. Every step is a durable checkpoint of a replacement job,
-- so that a crash at any point is resumed from the database.
--
-- The parts and their files:
--   * Prelude: Booleans, lists, options, and tables (a table is a function from keys to rows).
--   * Errors, Moments: the exceptions, by class, and the optional time of a transition. A call
--     gives `ok` with its value or `err` with the exception.
--   * Models: app/models, the enumerations and the columns that the modelled code reads or writes.
--     An enumeration has a number for each member, from which equality is decided.
--   * NodeLifecycle: app/services/node_state.py. A method takes the node and gives it back.
--   * Deployment: app/deployment/state.py and `DeploymentService` of app/deployment/service.py.
--   * Outside, Settings: what the workflow asks of the cloud providers, Check-Host, the master
--     panel, the remote host, the secret store, the clock and the operators, and the settings
--     (app/core/config.py). Each question carries the number of questions asked before it, so two
--     equal questions may be answered differently. Nothing is assumed of an answer.
--   * Runtime: the state of the service (the tables, the calls made to the outside, the number of
--     questions) and the monad of its methods: sessions that roll back, exceptions, `try`.
--     Runtime/Preserves and Runtime/Wp have the rules by which invariants go through a method.
--   * Replacement: app/replacement. Checkpoints (state.py), Guard (safety.py), Leases
--     and Queries (app/database/repositories/registry.py), Access (the `_require_*` helpers, leases, events),
--     Mutation (app/master/types.py and the helpers that build the master's new configuration),
--     Stages (one file for neighbouring `_stage_*` handlers of orchestrator.py) and Workflow
--     (`resume`, `cancel`, `_dispatch`, `_fail_job`). Sound has the invariant of the jobs and its
--     proof through every stage, Safety what the two cleanups may delete and what provisioning may
--     create, Trigger the admission of a job; Samples and SampleWorld have the rows of the examples.
--   * Monitoring: app/monitoring. Probes (types.py, the reading of an answer in check_host.py, and
--     `ReachabilityEvaluator`), Health (`NodeHealthCalculator` of health.py),
--     Leases (the lease of a check, of app/database/repositories/registry.py), Client
--     (`CheckHostClient` and app/replacement/reachability.py; the record `CheckHost` is what others
--     ask of it, and `http_client` fills it).
--   * Workers: app/workers. RepairCycle (replacement.py) runs `resume` and `trigger` of the
--     workflow, MonitoringCycle (monitoring.py) the checks over a `CheckHost`.
--   * Operational: app/services/operational_settings.py, the switches of the operators over the
--     settings table. The workflow sees them as questions of Outside. Operational/Refinement has
--     the switches as an operator thinks of them, and a run of commands on both.
--   * Registry: app/registry/service.py (Forms, Providers and Nodes, and `readiness`), and in
--     Registry/Management the changes and removals of app/registry/management.py. Registry/Rows and
--     Registry/Links have what tables keep when rows are written or removed.
--   * Control: the actions of app/control/service.py, with their audit events.
--   * System: the calls of the workers, the operators and the registry, one after the other.
--
-- How the code is read. A row is an object that sessions share; here a method reads it from its table
-- and writes it back where the code changes it. A session that raises goes back to the tables that it
-- started from; the calls to the outside stay made. An UPDATE with a WHERE clause is one step. Times
-- are seconds, waits are thirds of a second, those of Check-Host thousandths, and all are natural
-- numbers. Log lines, payloads of
-- events, texts of exceptions and labels of servers are left out.
--
-- Bounds. `resume` runs at most 64 rounds, as in the code, by recursion on the rounds left.
-- `_sleep_with_lease` recurses on the number of thirds to wait, which is enough because each piece
-- takes at least three thirds or all that remains. A poll of Check-Host takes as many rounds as its
-- interval goes into its timeout, and one more; the fuel is one more than the timeout has
-- thousandths of a second, which is enough for every interval that is not zero. Every other definition is structural.
--
-- Not modelled: the Telegram bot, the HTTP API, backups, discovery of nodes, diagnostics, the adapters
-- of the providers, the HTTP client of the master, SSH and the installer, the migrations and the
-- scripts. The workflow sees them through Outside, or not at all. Of the registry and the control
-- service, the snapshots that are only read, the cursor of the notifications, and the changes that
-- begin with a discovery or an SSH login are left out. Calls that overlap in time are not modelled.
pub mod Control
pub mod Deployment
pub mod Errors
pub mod Models
pub mod Moments
pub mod Monitoring
pub mod NodeLifecycle
pub mod Operational
pub mod Outside
pub mod Prelude
pub mod Registry
pub mod Replacement
pub mod Runtime
pub mod Settings
pub mod System
pub mod Workers
