-- ===== src/Limits.antt =====
-- The limits on requests: the tenants' in src/rate_limiter.py, sliding windows over sorted sets in
-- Redis, and those of API keys and addresses in src/rate_limit.py, token buckets.
pub mod Window
pub mod Bounds
pub mod Tokens
pub mod Retry
mod Examples
