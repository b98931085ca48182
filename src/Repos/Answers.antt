-- ===== src/Repos/Answers.antt =====
-- What the answers of the claim and the confirmation in backend/internal/repos/payment.go say of
-- the tables that they leave.
use seatsync.Prelude.{
  ℕ, ◌≡◌, refl, true, Option, some, [], Text, ok, err, arith, Option-cases, Result-cases, inl, inr,
}
use seatsync.Models.{Booking, Payment, is_confirmed}
use seatsync.Httpx.{ApiError}
use seatsync.Db.{Db}
use seatsync.Db.Rows.{find_booking, find_booking-update, find_booking-id}
use seatsync.Repos.{booking_not_pending, classify}
use seatsync.Repos.Booking.{get_by_id}
use seatsync.Repos.Payment.{
  set_key, claim_row, claim_tx, claim_idempotency_key, confirm_rows, confirm_booking, confirm_tx,
  confirm, insert_payment,
}

pub get_by_id-eq-ok :
    (id : ℕ) (db : Db) (b : Booking) → get_by_id id db ≡ ok b → find_booking id db.bookings ≡ some b
unfolding get_by_id
get_by_id-eq-ok id db b h = ground arith

-- A claim that succeeds hands back a row of this id.
claim_tx-id :
    (id : ℕ) (key : Text) (db : Db) (a : Booking) (db' : Db)
    → claim_tx id key db ≡ ok (a, db')
    → a.id ≡ id
unfolding claim_tx claim_row classify
claim_tx-id id key db a db' h = elim (Option-cases (find_booking id db.bookings)) [
  | inl missing ↦ absurd (ground arith)
  | inr (current, e) ↦ ground (
    arith,
    find_booking-id id db.bookings current e,
    find_booking-update id id (set_key key) db.bookings (λ c. refl),
  )
]

pub claim_idempotency_key-id :
    (id : ℕ) (key : Text) (db : Db) (a : Booking)
    → (claim_idempotency_key id key db).0 ≡ ok a
    → a.id ≡ id
unfolding claim_idempotency_key
claim_idempotency_key-id id key db a h = elim (Result-cases (claim_tx id key db)) [
  | inl ((c, db'), e) ↦ ground (arith, claim_tx-id id key db c db' e)
  | inr (x, e) ↦ absurd (ground arith)
]

-- A claim that meets a settled booking hands back that booking.
pub claim_idempotency_key-settled :
    (id : ℕ) (key : Text) (db : Db) (c : Booking)
    → (claim_idempotency_key id key db).0 ≡ err (some c, booking_not_pending)
    → find_booking id (claim_idempotency_key id key db).1.bookings ≡ some c
unfolding claim_idempotency_key claim_tx claim_row classify
claim_idempotency_key-settled id key db c h = elim (Option-cases (find_booking id db.bookings)) [
  | inl missing ↦ absurd (ground arith)
  | inr (current, e) ↦ ground arith
]

-- A confirmation that succeeds hands back the booking that the tables have, confirmed.
pub confirm-bought :
    (payment_id now id amount : ℕ) (ref : Text) (verify : Option ApiError) (db : Db) (b : Booking)
    (p : Payment)
    → (confirm payment_id now id amount ref verify db).0 ≡ ok (b, p)
    → (find_booking id (confirm payment_id now id amount ref verify db).1.bookings ≡ some b)
      × (is_confirmed b.status ≡ true)
unfolding confirm confirm_tx insert_payment classify
confirm-bought payment_id now id amount ref verify db b p h =
    elim (Option-cases (find_booking id db.bookings)) [
      | inl missing ↦ absurd (ground arith)
      | inr (current, e) ↦ elim (Result-cases (confirm_rows id [] db.booking_seats)) [
        | inl (rows, q) ↦
            ground (arith, find_booking-update id id (confirm_booking now) db.bookings (λ c. refl))
        | inr (x, q) ↦ absurd (ground arith)
      ]
    ]

pub confirm-settled :
    (payment_id now id amount : ℕ) (ref : Text) (verify : Option ApiError) (db : Db) (c : Booking)
    → (confirm payment_id now id amount ref verify db).0 ≡ err (some c, booking_not_pending)
    → find_booking id (confirm payment_id now id amount ref verify db).1.bookings ≡ some c
unfolding confirm confirm_tx insert_payment classify
confirm-settled payment_id now id amount ref verify db c h =
    elim (Option-cases (find_booking id db.bookings)) [
      | inl missing ↦ absurd (ground arith)
      | inr (current, e) ↦ ground arith
    ]
