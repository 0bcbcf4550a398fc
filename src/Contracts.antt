-- ===== src/Contracts.antt =====
-- The contracts package that the services share, services/inh-contracts.
pub mod FileTypes
pub mod Checks
pub mod Registered
pub mod Sniffed
