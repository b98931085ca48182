-- ===== src/Tests.antt =====
-- Concrete stores, tables and requests, and what the theorems say of them.
pub mod Stores
pub mod LockRuns
pub mod TableRuns
pub mod ServiceRuns
pub mod ReadRuns
pub mod HubRuns
pub mod LimitRuns
pub mod WebRuns
pub mod AccountRuns
pub mod ConfigRuns
pub mod RouteRuns
pub mod EdgeRuns
