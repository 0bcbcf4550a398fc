-- ===== src/PublicApi.antt =====
-- The public API service, services/inh-public-api-svc.
pub mod RateLimit
pub mod Quotas
pub mod Chunks
pub mod Context
pub mod Access
pub mod Documents
