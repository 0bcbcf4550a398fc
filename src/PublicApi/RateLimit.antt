-- ===== src/PublicApi/RateLimit.antt =====
-- The rate limiter, src/core/rate_limiter.py of the public API service.
pub mod Types
pub mod InMemory
pub mod Redis
pub mod Backend
mod Tests
