-- ===== src/Ingestion/Queue.antt =====
-- The consumer of the Redis message queue: src/services/mq/redis_mq.py of the ingestion service.
pub mod Tasks
pub mod Loop
pub mod Run
pub mod Log
pub mod Handling
pub mod Kept
pub mod Phases
pub mod Acks
pub mod Batch
pub mod Idle
mod Tests
