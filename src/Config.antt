-- ===== src/Config.antt =====
-- backend/internal/config/config.go: reading the environment, and the check of what was read.
pub mod Settings
pub mod Load
pub mod Checks
pub mod Usable
