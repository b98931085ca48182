-- ===== src/Lib.antt =====
-- seatsync sells numbered seats of events. A user holds seats for some minutes, pays for them, and
-- gets them for good; two users must never get the same seat. This library models the part of
-- the Go backend that decides this.
--
-- The parts and how they interact. The hold, payment and catalogue services and the expiry worker
-- (backend/internal/services) call three things: the repositories over Postgres
-- (backend/internal/repos, backend/migrations), the lock manager over Redis (backend/internal/locks, with its Lua
-- scripts) and a payment provider. A hold takes a lock for each seat, then inserts a pending
-- booking. A payment claims the booking for its Idempotency-Key, takes the booking's payment slot,
-- checks the locks, charges, and confirms in one transaction, which the partial unique index on
-- sold seats may refuse. The worker expires bookings whose hold is over.
--
-- Which file models which part:
-- - Prelude: shared types, tests, lists, results of fallible code, texts as lists of bytes.
-- - Models, Models.Price: backend/internal/models/models.go. Httpx: backend/internal/httpx/httpx.go.
-- - Db, Db.Rows: the tables of backend/migrations/000001_init.up.sql as lists of rows.
-- - Repos: backend/internal/repos/repos.go; Repos.Booking and Repos.Expiry: booking.go (CreatePending,
--   GetByID, SeatIDsFor, MarkCancelled; ClaimExpired); Repos.Payment: payment.go (RecordFailure, SucceededFor,
--   ClaimIdempotencyKey, Confirm); Repos.Event: event.go; Repos.Details: the reads of booking.go and event.go
--   that join (ListForUser, GetDetail, List, GetByID), sorted by Repos.Order. Repos.DetailSeats, Lookup, SoldOnce, Invariant, Keeps, KeepsPaid,
--   Settled, History, Sweep, Success, Answers and Groups hold the proofs about them.
-- - Locks.Keys, Locks.Manager: backend/internal/locks/locks.go; Locks.Scripts: the Lua scripts beside
--   it. Locks.Redis and Locks.Uuids are interfaces of the lock server and of google/uuid.
--   Locks.Acquire, Release, Exclusion and Held hold the proofs.
-- - Services.Selection and Services.Holds: holds.go; Services.Payments: payments.go; Services.Catalog:
--   catalog.go; Services.Reads: the reads of holds.go and catalog.go; Services.Expiry: expiry.go; Services.Provider:
--   backend/internal/payments/provider.go; Services.World: how a service runs; Services.Locker: the
--   lock manager as the services' SeatLocker, HoldReader and PaymentMutex. Services.Keeps, Safety,
--   PaymentParts, PaymentSafety, Requests, Triples, Purchase, SeatMap and OwnBookings hold the proofs.
-- - Realtime.Hub and Realtime.Sessions: backend/internal/realtime/hub.go, the fan-out of seat updates to
--   the browsers; Realtime.Relay: backend/internal/realtime/pubsub.go, its relay between the instances of
--   the server; Realtime.Rooms and Realtime.Delivery hold the proofs.
-- - RateLimit.Script and RateLimit.Limiter: the token bucket script and Limiter.Allow of
--   backend/internal/ratelimit; RateLimit.Buckets: the interface of the hash commands; RateLimit.Refill,
--   Bound, Retry and Memory hold the proofs, Memory also the limiter's reference.
-- - Accounts.Tokens: backend/internal/auth/tokens.go, with golang-jwt as an interface; Accounts.Users and
--   Accounts.RefreshTokens: user.go and refresh_token.go of backend/internal/repos on the tables of
--   Accounts.Rows; Accounts.Service: backend/internal/services/auth.go; Accounts.World: how it runs.
--   Accounts.Logic, Keeps, Spent, Rotation, Invariant, SignIn, Enrolled, RoundTrip and Validation hold
--   the proofs.
-- - Web.Http: requests, responses and the writers of httpx.go; Web.Auth:
--   backend/internal/middleware/middleware.go; Web.Identity and Web.Limit:
--   backend/internal/middleware/ratelimit.go; Web.Router: the allowances of
--   backend/internal/server/router.go, and Web.Routes: its routes; Web.Decode: the body decoder of httpx.go;
--   Web.Bookings: backend/internal/handlers/holds.go, payments.go and events.go; Web.SignIns:
--   backend/internal/handlers/auth.go, and Web.AccountRoutes: their routes; Web.Security:
--   backend/internal/middleware/security.go, health.go and the origin check of ws.go; Web.Keys, Web.Guards and Web.Protected hold the proofs.
-- - Config.Settings and Config.Load: backend/internal/config/config.go, with the parsers of Go's library as an
--   interface; Config.Checks and Config.Usable hold the proofs.
-- - Tests: a concrete lock server, tables and requests, on which the definitions run.
--
-- How the code is modelled:
-- - A transaction is one step on the tables (InTx commits all of it or nothing, and the rows it
--   reads are locked FOR UPDATE); its statements check the schema's constraints in the order in
--   which Postgres does. Ids that the database draws and its clock are arguments. Foreign keys that
--   the code never deletes by are not checked again.
-- - A script of Redis is one step on the store. The store is a parameter: an interface with the
--   documented behaviour of each command, times in milliseconds.
-- - A service is a chain of calls. Before each call a schedule may change the shared state in any
--   way, and the call may be served, may fail before it takes effect, or may take effect with its answer lost; the
--   schedule also gives the clocks, fresh ids, the provider's answer and the rows that other
--   transactions have locked. A lock check inside the confirming transaction sees the store at the
--   transaction's own step.
-- - A UUID is a natural number and uuid.Nil is 0; a time is a number of milliseconds; an int64 is
--   its 64-bit pattern. Texts are bytes; TrimSpace drops ASCII space; sections are ordered by bytes.
--   A cast to BIGINT that is out of range is an error in Postgres and is left out.
-- - Fuel: the decimal printer in Prelude.Texts has one more than the number, which bounds its digits;
--   the splitting at commas in Config.Load has one more than the length, and each step drops a comma.
--   All other loops are recursion on a list; the worker runs for a given number of ticks.
-- - A float of the configuration is NaN, an infinity or a fraction; Go's parsers are parameters. A
--   request body is what the decoder of encoding/json makes of it.
-- - A call of the hub is one step; a client's event is a function of the client, and the pumps on its
--   socket are left out.
-- - Tokens of a bucket are counted in units of which a whole number accrues each millisecond, so that
--   refills and waits are exact; the script's floating point is not modelled, nor is a rate that is
--   not finite.
--
-- Not modelled: the reconnection of the relay, the socket upgrade, recovery,
-- CORS, the database pool, the commands, logging, request cancellation and the front end.
pub mod Prelude
pub mod Models
pub mod Httpx
pub mod Db
pub mod Repos
pub mod Locks
pub mod Services
pub mod Realtime
pub mod RateLimit
pub mod Config
pub mod Accounts
pub mod Web
pub mod Tests
