-- ===== src/RateLimit.antt =====
-- backend/internal/ratelimit: the token bucket script, the limiter that runs it, and how many
-- requests it lets through.
pub mod Buckets
pub mod Script
pub mod Limiter
pub mod Refill
pub mod Bound
pub mod Retry
pub mod Memory
