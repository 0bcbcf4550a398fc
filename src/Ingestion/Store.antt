-- ===== src/Ingestion/Store.antt =====
-- How the runs of a document's workflow write it: its row and its chunks in PostgreSQL, with the
-- fencing of superseded runs, src/services/database.py of the ingestion service.
pub mod Rows
pub mod Writes
pub mod Fence
pub mod Superseded
pub mod Inserted
pub mod Retry
pub mod Counters
pub mod Flushes
mod Tests
