-- ===== src/RateLimit.antt =====
-- apps/api/src/rate_limit.rs: request windows, client addresses and generation permits.
pub mod Policy
pub mod Buckets
pub mod Configured
pub mod ClientIp
pub mod Generation
