-- ===== src/Orchestrator/Store.antt =====
-- orchestrator/store.py: the rows of the three tables, what a store promises, and the two backends
-- (orchestrator/store.py and orchestrator/postgres_store.py).
pub mod Tables
pub mod Transaction
pub mod Sqlite
pub mod Postgres
pub mod Protocol
