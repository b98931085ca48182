-- ===== src/Accounts.antt =====
-- The accounts: backend/internal/auth, the user and refresh-token repositories and the service
-- that signs users in.
pub mod Tokens
pub mod Rows
pub mod Users
pub mod RefreshTokens
pub mod World
pub mod Service
pub mod Logic
pub mod Keeps
pub mod Spent
pub mod Rotation
pub mod Invariant
pub mod Validation
pub mod SignIn
pub mod Enrolled
pub mod RoundTrip
