-- ===== src/PublicApi/Chunks.antt =====
-- Writes of a single chunk to both stores: src/services/chunk_writes.py of the public API service,
-- with the retries of src/services/compensation.py.
pub mod Stores
pub mod Compensation
pub mod Writes
pub mod Rows
pub mod Retries
pub mod Course
pub mod Sync
pub mod Outcome
pub mod Create
pub mod Delete
pub mod Restore
pub mod Update
pub mod Timeout
mod Tests
