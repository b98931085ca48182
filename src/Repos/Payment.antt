-- ===== src/Repos/Payment.antt =====
-- backend/internal/repos/payment.go: the claim of the Idempotency-Key, the confirming transaction
-- and the payment rows.
use seatsync.Prelude.{
  ℕ, Bool, true, false, ◌&&◌, ◌||◌, Option, none, some, List, [], ◌∷◌, Text, text_eq, Result, ok,
  err, ◌>>=◌, ◌>>◌, guard, ◌==◌, if◌then◌else◌,
}
use seatsync.Models.{
  Booking, Payment, PaymentStatus, succeeded, failed, confirmed, is_pending, is_succeeded,
}
use seatsync.Httpx.{ApiError}
use seatsync.Db.{Db, BookingSeat}
use seatsync.Db.Rows.{find_booking, update_booking, sold, paid_count}
use seatsync.Repos.{
  PgError, Error, api, booking_not_pending, idempotency_key_mismatch, duplicate_key, payments_pkey,
  uq_payments_one_success_per_booking, uq_bookings_idempotency_key, uq_booking_seats_confirmed_seat,
  unique_violation, foreign_key_violation, classify, classified, in_tx,
}
use seatsync.Repos.Booking.{is_some, or_no_rows}

unfoldable pub has_payment : ℕ → List Payment → Bool
has_payment i [] = false
has_payment i (p ∷ ps) = p.id == i || has_payment i ps

-- `INSERT INTO payments …`: the primary key, the index on successful payments, the foreign key.
unfoldable pub insert_payment : Payment → Db → Result PgError (Payment × Db)
insert_payment p db = do
  guard (if has_payment p.id db.payments then false else true) (unique_violation payments_pkey)
  guard (if is_succeeded p.status then paid_count p.booking_id db.payments == 0 else true)
      (unique_violation uq_payments_one_success_per_booking)
  guard (is_some (find_booking p.booking_id db.bookings)) foreign_key_violation
  ok (p, record db { payments = p ∷ db.payments })

unfoldable pub payment_row : ℕ → ℕ → PaymentStatus → ℕ → ℕ → Text → Payment
payment_row id now status booking_id amount provider_ref = record {
  id = id;
  booking_id = booking_id;
  status = status;
  amount = amount;
  provider_ref = provider_ref;
  created_at = now;
}

unfoldable pub record_failure : ℕ → ℕ → ℕ → ℕ → Text → Db → Result Error Payment × Db
unfolding insert_payment payment_row
record_failure id now booking_id amount provider_ref =
    in_tx λ db.
      classified (insert_payment (payment_row id now failed booking_id amount provider_ref) db)

unfoldable pub find_success : ℕ → List Payment → Option Payment
find_success i [] = none
find_success i (p ∷ ps) =
    if is_succeeded p.status && p.booking_id == i then some p else find_success i ps

unfoldable pub succeeded_for : ℕ → Db → Result Error Payment
succeeded_for booking_id db = classified (or_no_rows (find_success booking_id db.payments))

abbrev pub has_key : Text → Booking → Bool
has_key key b = elim b.idempotency_key [ none ↦ false | some k ↦ text_eq k key ]

-- Whether another booking has the key: what uq_bookings_idempotency_key refuses.
unfoldable pub key_taken : Text → ℕ → List Booking → Bool
key_taken key i [] = false
key_taken key i (b ∷ bs) =
    ((if b.id == i then false else true) && has_key key b) || key_taken key i bs

abbrev pub set_key : Text → Booking → Booking
set_key key b = record b { idempotency_key = some key }

-- `UPDATE bookings SET idempotency_key = $2 WHERE id = $1 RETURNING …`.
unfoldable pub claim_row : ℕ → Text → Db → Result PgError (Booking × Db)
claim_row id key db = do
  guard (if key_taken key id db.bookings then false else true)
      (unique_violation uq_bookings_idempotency_key)
  let bookings = update_booking id (set_key key) db.bookings
  booking ← or_no_rows (find_booking id bookings)
  ok (booking, record db { bookings = bookings })

-- What a repository method returns beside its error.
abbrev pub Failure : Type 0
Failure = Option Booking × Error

abbrev pub failing {ℓ} : {A : Type ℓ} → Option Booking → Result PgError A → Result Failure A
failing b (ok a) = ok a
failing b (err e) = err (b, classify e)

-- A violated unique index of the claim means that another booking has the key.
abbrev pub claim_failure : Result PgError (Booking × Db) → Result Failure (Booking × Db)
claim_failure (ok r) = ok r
claim_failure (err e) = elim (classify e) [
  | duplicate_key ↦ err (none, idempotency_key_mismatch)
  | e' ↦ err (none, e')
]

unfoldable pub claim_pending : ℕ → Text → Booking → Db → Result Failure (Booking × Db)
unfolding claim_row
claim_pending id key current db = elim current.idempotency_key [
  | none ↦ claim_failure (claim_row id key db)
  | some k ↦ ok (current, db)
]

unfoldable pub claim_tx : ℕ → Text → Db → Result Failure (Booking × Db)
unfolding claim_pending
claim_tx id key db = do
  current ← failing none (or_no_rows (find_booking id db.bookings))
  guard (if is_some current.idempotency_key then has_key key current else true)
      (none, idempotency_key_mismatch)
  guard (is_pending current.status) (some current, booking_not_pending)
  claim_pending id key current db

unfoldable pub claim_idempotency_key : ℕ → Text → Db → Result Failure Booking × Db
unfolding claim_tx
claim_idempotency_key id key = in_tx (claim_tx id key)

-- `UPDATE booking_seats SET confirmed = true WHERE booking_id = $1`, row by row: each row that
-- becomes confirmed is checked against the rows done and the rows left.
unfoldable pub confirm_rows :
    ℕ → List BookingSeat → List BookingSeat → Result PgError (List BookingSeat)
confirm_rows i done [] = ok done
confirm_rows i done (r ∷ rs) =
    let this = confirm_rows i (record r { confirmed = true } ∷ done) rs in
    let next = confirm_rows i (r ∷ done) rs in
    if r.booking_id == i
    then (if sold r.event_id r.seat_id done || sold r.event_id r.seat_id rs
        then err (unique_violation uq_booking_seats_confirmed_seat)
        else this)
    else next

abbrev pub confirm_booking : ℕ → Booking → Booking
confirm_booking now b = record b { status = confirmed; confirmed_at = some now }

-- `verify` is what the callback returns inside the transaction: an error, or nothing.
unfoldable pub confirm_tx :
    ℕ → ℕ → ℕ → ℕ → Text → Option ApiError → Db → Result Failure ((Booking × Payment) × Db)
unfolding insert_payment payment_row
confirm_tx payment_id now id amount provider_ref verify db = do
  current ← failing none (or_no_rows (find_booking id db.bookings))
  guard (is_pending current.status) (some current, booking_not_pending)
  elim verify [ none ↦ ok tt | some e ↦ err (none, api e) ]
  rows ← failing none (confirm_rows id [] db.booking_seats)
  let bookings = update_booking id (confirm_booking now) db.bookings
  booking ← failing none (or_no_rows (find_booking id bookings))
  (payment, db') ← failing (some booking) (
      insert_payment (payment_row payment_id now succeeded id amount provider_ref)
        (record db { bookings = bookings; booking_seats = rows }))
  ok ((booking, payment), db')

unfoldable pub confirm :
    ℕ → ℕ → ℕ → ℕ → Text → Option ApiError → Db → Result Failure (Booking × Payment) × Db
unfolding confirm_tx
confirm payment_id now id amount provider_ref verify =
    in_tx (confirm_tx payment_id now id amount provider_ref verify)
