-- ===== src/Web.antt =====
-- The HTTP surface: backend/internal/middleware and backend/internal/handlers over an abstract
-- request and response.
pub mod Http
pub mod Identity
pub mod Keys
pub mod Auth
pub mod Guards
pub mod Limit
pub mod Router
pub mod Decode
pub mod Bookings
pub mod SignIns
pub mod AccountRoutes
pub mod Security
pub mod Routes
pub mod Protected
