-- ===== src/Repos.antt =====
-- backend/internal/repos/repos.go: the sentinel errors, the classification of driver errors, and
-- the transaction wrapper. A statement runs on the tables; Postgres runs a transaction as one step.
pub mod Booking
pub mod Payment
pub mod Expiry
pub mod Event
pub mod Order
pub mod Details
pub mod DetailSeats
pub mod Lookup
pub mod Sweep
pub mod Answers
pub mod Success
pub mod Groups
pub mod SoldOnce
pub mod Invariant
pub mod Keeps
pub mod KeepsPaid
pub mod Settled
pub mod History
use seatsync.Prelude.{◌≡◌, refl, Result, ok, err}
use seatsync.Httpx.{ApiError}
use seatsync.Db.{Db}

-- The unique indexes and keys of the schema that a statement here can violate.
pub data Constraint : Type 0 where
  bookings_pkey uq_bookings_idempotency_key booking_seats_pkey : Constraint
  uq_booking_seats_confirmed_seat payments_pkey uq_payments_one_success_per_booking : Constraint
  users_pkey uq_users_email refresh_tokens_pkey uq_refresh_tokens_hash : Constraint

pub data PgError : Type 0 where
  no_rows : PgError
  unique_violation : Constraint → PgError
  foreign_key_violation check_violation connection_failed : PgError

-- The errors that a repository returns; `api` is an error of a callback, `other` an unclassified one.
pub data Error : Type 0 where
  not_found duplicate_key seat_confirmed booking_not_pending idempotency_key_mismatch : Error
  api : ApiError → Error
  other : PgError → Error

unfoldable pub classify : PgError → Error
classify no_rows = not_found
classify (unique_violation uq_booking_seats_confirmed_seat) = seat_confirmed
classify (unique_violation _) = duplicate_key
classify foreign_key_violation = not_found
classify e = other e

-- `InTx`: the tables are those that the function leaves if it succeeds, else those before it.
abbrev pub finish {ℓ κ} : {E : Type ℓ} {A : Type κ} → Db → Result E (A × Db) → Result E A × Db
finish db (ok (a, db')) = (ok a, db')
finish db (err e) = (err e, db)

abbrev pub in_tx {ℓ κ} : {E : Type ℓ} {A : Type κ} → (Db → Result E (A × Db)) → Db → Result E A × Db
in_tx fn db = finish db (fn db)

-- The result of one statement, its driver error classified.
abbrev pub classified {ℓ} : {A : Type ℓ} → Result PgError A → Result Error A
classified (ok a) = ok a
classified (err e) = err (classify e)

-- To prove something of the tables after a transaction: it holds before, and of what a successful
-- function leaves.
pub in_tx-keeps {ℓ κ μ} :
    {E : Type ℓ} {A : Type κ} (P : Db → Type μ) (fn : Db → Result E (A × Db)) (db : Db)
    → P db
    → ((a : A) (db' : Db) → fn db ≡ ok (a, db') → P db')
    → P (in_tx fn db).1
in_tx-keeps {E = E} {A = A} P fn db before after = go (fn db) refl
  where
    go : (r : Result E (A × Db)) → fn db ≡ r → P (finish db r).1
    go (ok (a, db')) e = after a db' e
    go (err x) e = before

pub classified-eq-ok {ℓ} :
    {A : Type ℓ} (r : Result PgError A) {a : A} → classified r ≡ ok a → r ≡ ok a
classified-eq-ok (ok a) h = cc
classified-eq-ok (err e) h = cc
