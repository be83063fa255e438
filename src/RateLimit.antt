-- ===== src/RateLimit.antt =====
-- Rate limiting: api/rate_limit.py and api/middleware.py.
pub mod Bucket
pub mod Policy
pub mod Identity
pub mod Middleware
