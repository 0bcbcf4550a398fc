-- ===== src/Ingestion.antt =====
-- The ingestion service, services/inh-ingestion-svc.
pub mod Workflow
pub mod Chunking
pub mod Queue
pub mod Store
