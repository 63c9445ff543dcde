-- ===== src/Lib.antt =====
-- Picket watches a condition (an HTTP endpoint or a probe script) in a daemon, records a durable
-- trigger in a SQLite ledger when the condition becomes true, and has a worker run one runbook for
-- it. This library models the program's core over the Python sources under src/picket and proves
-- what makes it correct.
--
-- Parts, and how they interact. The scheduler (runtime/daemon.py, poll_once) observes a value
-- through conditions/condition.py and, once per episode of the condition, inserts a row into the
-- ledger of persistence/store.py. Workers lease pending rows, run them and finish them; the
-- supervisor recovers rows whose lease has expired and prunes old ones. The server sends commands
-- to a daemon through a table with generations and acknowledgements.
--
-- Files. Core/Json: JSON values and Python's equality on them. Core/Models: core/models.py, the
-- records after validation. Condition/Extract and Condition/Predicate: conditions/condition.py;
-- Store/Fire, Store/Ledger, Store/History, Store/Commands and
-- Store/Watches: the tables of persistence/store.py, one function for each operation, under its
-- name. Store/Trace: the transactions on the table fires as data. Store/Integrity, Rows, Claim,
-- Leases, Recovery, Retention and Channel: their proofs; Store/Rowwise: a table before and after an
-- update, row by row. Daemon/Window: in_active_window,
-- _gates_open and _ttl_expired of runtime/daemon.py. Daemon/Decimal and Daemon/Poll: poll_once.
-- Daemon/System: polls interleaved with what others do to the ledger. Daemon/Work, Enqueue,
-- Episodes, Gates and Keys: proofs. Daemon/Loop: the body of the loop of run; Daemon/Obedience: its
-- proofs. Store/Ids: safe_id and the paths. Handler: execution/handler.py, execution/runbooks.py
-- and Worker._execute of runtime/daemon.py. Handler/Types: the records, and World, what an
-- execution takes from outside. Handler/Payload, Runbooks, Attempts, Deliver, Run and Worker:
-- build_payload, the runbook and its command, the loop over the attempts, _finalize and _deliver,
-- run_fire, _execute. Handler/Standalone: fire. Handler/Retries, Ends and Completion: their proofs. An execution is
-- the list of transactions that it makes, which are those that Store/Trace's histories range over.
-- Handler/Drain: Worker.run of runtime/daemon.py, on fuel; Handler/Draining: the fuel that is
-- enough. Handler/Registry: the registration of runbooks and the files; Handler/Registration: its
-- proof. Core/Errors: core/errors.py, and the steps of a tool that may refuse; Core/Steps: lemmas
-- on them. Core/Validate and Core/WatchSpec: the validators of core/models.py; Core/Specs: what
-- passes them; Daemon/Hours: a validated window together with in_active_window. Condition/Fetch:
-- fetch; Condition/Trial: run_test_predicate; Daemon/DryRun: it agrees with a poll. Probes:
-- conditions/probes.py; Probes/Types, Verdict and Run: the records, _parse_verdict and the rest;
-- Probes/Verdicts and Evidence: proofs; Probes/Registry and Registration: registration, as that of
-- runbooks. Watches: runtime/watches.py and runtime/supervisor.py; Watches/Liveness: is_alive and
-- effective_status; Watches/Control: pause, resume and stop; Watches/Request and Arm: arm_watch;
-- Watches/Reconcile: reconcile; Watches/Stopping, Pausing, Sweeps, Spawning,
-- Arming and Orphans: proofs.
-- Store/Keyed: the key of a row; Store/Mailbox: the control channel and its specification, a
-- mailbox for one command; Store/Delivery: the proof. Daemon/Overwrite and Limits: what a poll
-- writes, and the loop against max_fires. Daemon/Run: run with its start, its loop and _shutdown;
-- Daemon/Upkeep and Endings: what each round keeps, and how the loop ends. Store/Logs: append_log and
-- the lines of a log; Store/Logging: its bound and what a reader is given. Store/Atomic:
-- write_json_atomic as steps on files; Store/Swapping: what a reader finds between them.
-- Watches/Listing: list_watches and get_watch. Server: server.py and persistence/audit.py;
-- Server/Audit: the latter; Server/Calls, Replies and Tools: the calls, what they return and what each
-- tool does; Server/Changes and Serving: the changes to the database that a call is made of;
-- Server/Resting, Sequences and Failures: what holds over every sequence of calls and of failures.
-- Watches/Overtaking: a stop and a pause that meet. Daemon/Rounds: what a round does to the ledger.
-- Program: the server, the daemons and the workers as one step relation; Program/Healthy and
-- Invariant: its invariant. Examples: tests, and each theorem at a concrete input.
-- Prelude: shared helpers.
--
-- Representation. A table is the list of its rows in rowid order and each operation is one
-- transaction, as SQLite makes it; a connection that fails is not modelled. A time is a number of
-- microseconds and a duration too; a clock gives the reading for each mention of the time. A text
-- is the list of its code points. Python's numbers are a type with the operations that the program
-- uses, as a parameter. An observation gives a value, an ObserveError or ProbeError, or another
-- exception. The network, JSONPath and the probe process are parameters, and so are the files,
-- processes and libraries that an execution uses (World). Fuel bounds the decimal print of a number
-- (n + 1 is above the number of digits of n) and the loop of a worker (one more than the fires that
-- wait is enough when it drains).
--
-- A tool takes the tables and gives its reply, the tables after it and the signals that it sent;
-- processes are a map from pids to creation times. What pydantic does to a dict before the program's
-- validators run is a parameter, and so are HTTP, the environment, TOML and path resolution.
--
-- A call of a tool takes what it needs from outside (Outside) and gives its reply, the database and the
-- registered files after it, the signals that it sent and the daemons that it spawned. A round of the
-- daemon's loop takes a Round, in which what others did to the tables since the last one is a
-- function; the number of rounds is run's own argument. A file that several processes write is changed
-- by their steps in the order of a schedule, where a process that is killed has no further entry.
-- In Program at most one process runs the daemon of a watch: the program spawns one where a watch is
-- armed and where the recorded process is dead.
--
-- Not modelled: the sleeps between rounds and sweeps, with them supervisor.py's run_forever; threads,
-- signals and the detached process of a daemon; the schema and its migration; the runner of a
-- handler's process; FastMCP, which checks the types of a call's arguments.
mod Prelude
pub mod Core
pub mod Condition
pub mod Store
pub mod Daemon
pub mod Handler
pub mod Probes
pub mod Watches
pub mod Server
pub mod Program
mod Examples
