-- ===== src/Services.antt =====
-- backend/internal/services: the interfaces that the services drive, the state that they share, and
-- the way in which they run.
pub mod Selection
pub mod World
pub mod Holds
pub mod Payments
pub mod Expiry
pub mod Catalog
pub mod Reads
pub mod Provider
pub mod OwnBookings
pub mod Keeps
pub mod Triples
pub mod Locker
pub mod Safety
pub mod PaymentParts
pub mod PaymentSafety
pub mod Requests
pub mod Purchase
pub mod SeatMap
