-- ===== src/Ingestion/Workflow.antt =====
-- The document ingestion workflow, src/temporal/workflows/document_ingestion.py of the ingestion
-- service, and the part of src/temporal/trigger.py that builds its input from a message.
pub mod Messages
pub mod Activities
pub mod Steps
pub mod Run
pub mod Classify
pub mod Accounting
pub mod Quiet
pub mod Grown
pub mod Stored
pub mod Healthy
pub mod Replay
mod Tests
