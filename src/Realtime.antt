-- ===== src/Realtime.antt =====
-- backend/internal/realtime: the fan-out of seat updates to the browsers.
pub mod Hub
pub mod Rooms
pub mod Delivery
pub mod Sessions
pub mod Relay
