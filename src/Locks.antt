-- ===== src/Locks.antt =====
-- backend/internal/locks: seat locks and the payment mutex on top of Redis.
pub mod Uuids
pub mod Keys
pub mod Redis
pub mod Scripts
pub mod Acquire
pub mod Release
pub mod Manager
pub mod Exclusion
pub mod Held
