-- ===== src/Lib.antt =====
-- This library is about the routing of tasks to model tiers: the package routing_matrix decides,
-- and the package orchestrator accounts for, limits, stores and runs what was decided.
--
-- The parts and how they interact. `route` (routing_matrix/core.py) takes a task and the caller's
-- degraded flag, asks the classifier (routing_matrix/classifier.py) for a tier, caps frontier to
-- advanced if the flag is set, resolves the tier's pointer (routing_matrix/tiers.py) and logs the
-- decision. `Orchestrator.orchestrate` (orchestrator/core.py) calls it in process, with the ledger
-- of orchestrator/usage.py and the registry of routing_matrix/providers.py. The durable path is
-- `OrchestratorAPI` (orchestrator/api.py), which claims an idempotency key, creates the task's row
-- and starts `TaskWorkflow.run` (orchestrator/workflow.py); that reserves the projected cost
-- (orchestrator/costing.py) in a store, asks the breaker (orchestrator/circuit_breaker.py),
-- routes, settles, records the cost, dispatches, and writes the final status. The store is SQLite
-- (orchestrator/store.py) or Postgres (orchestrator/postgres_store.py).
--
-- The files. Prelude holds the shared names, Python's dict and text operations, results and the
-- interface of floats. Matrix.Model, .Classifier, .Tiers, .Route, .Providers and .Logging are the
-- modules of routing_matrix; the payload that `route` logs is in .Logging. Orchestrator.Usage,
-- .Breaker, .RateLimit, .Costing, .Logging (with orchestrator/trace.py), .Core, .Stubs and .Api
-- are the modules of orchestrator with those names; .Core.Shared has the module's function
-- `orchestrate` and the ledgers and loggers of the process. Orchestrator.Store.Tables has the rows
-- and the statements on them, .Sqlite and .Postgres the methods of the two backends, each as one
-- step on the tables, .Protocol the record of operations that stands for the protocols, and
-- .Protocol.Laws what the clients rely on. .Sqlite.Session and .Postgres.Connection have the
-- methods that write statement by statement, with their commits, rollbacks and connections, over
-- the driver of .Transaction, which is an interface with the laws that sqlite3, psycopg and
-- psycopg_pool document; .Postgres.Config has `__init__` and `from_env`. Orchestrator.Lifecycle
-- puts the facade and the workflow together. Orchestrator.Workflow.Exec is code that changes a
-- state and may raise, .World what the activities share and how Temporal runs one of them,
-- .Activities and .Run the functions of orchestrator/workflow.py. .Others says what may act on the
-- shared state beside one workflow, as sequences of single actions: activities of other workflows,
-- and what the facade does to the store; a whole run and a whole submission are such sequences. A
-- child module holds proofs and is named for what they are about; Tests holds the theorems at
-- concrete inputs.
--
-- How the code is represented. State is passed explicitly, and an object that a method changes is
-- an argument and a part of the result. A raised exception is the `err` of a result, and what was
-- changed before the raise stays changed. A method that holds a lock or is a transaction is one
-- step. Floats are an interface (Prelude.Float) with the laws that rounding leaves true of finite
-- numbers; theorems that use the laws take them as an argument, and whole ten-thousandths meet
-- them. What the database's SUM makes of the amounts of rows is a function of that interface
-- without any law; theorems that need that a sum is at least each of its amounts, or that rows are
-- added in the order of their insertion, take it as an argument. An adapter of a provider and a
-- factory are functions, and both may raise. A field that is given to the logger under the name of
-- an attribute of the record raises `KeyError`. Text is folded to lower case for ASCII letters,
-- and white space is that of Python's `str.strip`. Clocks, uuids and the environment are
-- arguments.
--
-- Bounds. A workflow's activity has at most three attempts, as the retry policy says; the runtime
-- gives for each attempt whether it runs, stalls, raises before it has an effect, loses its
-- result, or is never started, and theorems on runs hold for every such choice, unless they say
-- which. It also gives what others do before each attempt, and the theorems hold for everything
-- that .Others allows. A call of the store that raises is, for the tables, an attempt that raises
-- before it has an effect or, if only the answer of a commit was lost, one that loses its result.
-- No function needs fuel.
--
-- Not modelled: files, sockets and the schema's text, the isolation of concurrent transactions
-- inside the databases (each transaction is one step among the others, as BEGIN IMMEDIATE and the
-- account lock make it), the stream handlers of the loggers, time stamps and exception texts, an
-- adapter that answers one pointer in different ways from call to call, a SUM that adds the same
-- rows in different ways from call to call, and the re-exports of the two packages.
pub mod Prelude
pub mod Matrix
pub mod Orchestrator
pub mod Tests
