-- ===== src/Repos/Booking.antt =====
-- backend/internal/repos/booking.go: the bookings and the seats attached to them. What Postgres
-- fills in (a fresh id, the time of the transaction) is an argument.
use seatsync.Prelude.{
  ℕ, Bool, true, false, ◌&&◌, ◌||◌, Option, none, some, List, [], ◌∷◌, Text, Result, ok, err, ◌>>=◌,
  ◌>>◌, guard, ltb, leb, contains, ◌==◌, if◌then◌else◌,
}
use seatsync.Models.{Booking, pending, cancelled, is_pending, Seat}
use seatsync.Models.Price.{i64_half}
use seatsync.Db.{Db, BookingSeat}
use seatsync.Db.Rows.{find_booking, update_booking, find_event, seat_exists}
use seatsync.Repos.{
  PgError, Error, bookings_pkey, booking_seats_pkey, unique_violation, no_rows,
  foreign_key_violation, check_violation, classified, in_tx,
}

abbrev pub is_some {ℓ} : {A : Type ℓ} → Option A → Bool
is_some none = false
is_some (some a) = true

abbrev pub or_no_rows {ℓ} : {A : Type ℓ} → Option A → Result PgError A
or_no_rows none = err no_rows
or_no_rows (some a) = ok a

-- `INSERT INTO bookings …`, with the schema's checks in Postgres' order: the CHECK constraint, the
-- primary key, the foreign keys.
unfoldable pub insert_booking : Booking → Db → Result PgError (Booking × Db)
insert_booking b db = do
  guard (ltb b.total_amount i64_half) check_violation
  guard (if is_some (find_booking b.id db.bookings) then false else true)
      (unique_violation bookings_pkey)
  guard (contains db.users b.user_id && is_some (find_event b.event_id db.events))
      foreign_key_violation
  ok (b, record db { bookings = b ∷ db.bookings })

unfoldable pub has_row : ℕ → ℕ → List BookingSeat → Bool
has_row i s [] = false
has_row i s (r ∷ rs) = (r.booking_id == i && r.seat_id == s) || has_row i s rs

-- A missing seat is found when all rows are in: another row's violated key is reported first.
abbrev pub missing_seat : Result PgError (List BookingSeat) → Result PgError (List BookingSeat)
missing_seat (ok rows) = err foreign_key_violation
missing_seat (err e) = err e

-- `CopyFrom` into booking_seats, the confirmed column false.
unfoldable pub copy_rows :
    ℕ → ℕ → List Seat → List ℕ → List BookingSeat → Result PgError (List BookingSeat)
copy_rows i e seats [] rows = ok rows
copy_rows i e seats (s ∷ ss) rows =
    let row : BookingSeat = record {
      booking_id = i;
      seat_id = s;
      event_id = e;
      confirmed = false;
    } in
    let rest = copy_rows i e seats ss (row ∷ rows) in
    if has_row i s rows
    then err (unique_violation booking_seats_pkey)
    else if seat_exists s seats
    then rest
    else missing_seat rest

unfoldable pub pending_booking : ℕ → ℕ → ℕ → ℕ → ℕ → Text → ℕ → Booking
pending_booking id now user_id event_id total_amount lock_token hold_expires_at = record {
  id = id;
  user_id = user_id;
  event_id = event_id;
  status = pending;
  total_amount = total_amount;
  idempotency_key = none;
  lock_token = lock_token;
  hold_expires_at = hold_expires_at;
  created_at = now;
  confirmed_at = none;
}

unfoldable pub create_pending_tx : Booking → List ℕ → Db → Result Error (Booking × Db)
unfolding insert_booking
create_pending_tx b seat_ids db = do
  (booking, db') ← classified (insert_booking b db)
  rows ← classified (copy_rows booking.id booking.event_id db'.seats seat_ids db'.booking_seats)
  ok (booking, record db' { booking_seats = rows })

unfoldable pub create_pending :
    ℕ → ℕ → ℕ → ℕ → List ℕ → ℕ → Text → ℕ → Db → Result Error Booking × Db
unfolding create_pending_tx pending_booking
create_pending id now user_id event_id seat_ids total_amount lock_token hold_expires_at = in_tx (
    create_pending_tx
      (pending_booking id now user_id event_id total_amount lock_token hold_expires_at) seat_ids)

unfoldable pub get_by_id : ℕ → Db → Result Error Booking
get_by_id id db = classified (or_no_rows (find_booking id db.bookings))

-- `ORDER BY seat_id`.
unfoldable pub insert_sorted : ℕ → List ℕ → List ℕ
insert_sorted s [] = s ∷ []
insert_sorted s (t ∷ ts) = if leb s t then s ∷ t ∷ ts else t ∷ insert_sorted s ts

unfoldable pub seat_ids_in : ℕ → List BookingSeat → List ℕ
unfolding insert_sorted
seat_ids_in id [] = []
seat_ids_in id (r ∷ rs) =
    let rest = seat_ids_in id rs in
    if r.booking_id == id then insert_sorted r.seat_id rest else rest

unfoldable pub seat_ids_for : ℕ → Db → List ℕ
seat_ids_for id db = seat_ids_in id db.booking_seats

abbrev pub cancel_pending : Booking → Booking
cancel_pending b = if is_pending b.status then record b { status = cancelled } else b

-- The statement's row count is positive exactly if the booking is there and pending.
unfoldable pub mark_cancelled : ℕ → Db → Bool × Db
mark_cancelled id db = (
  elim (find_booking id db.bookings) [ none ↦ false | some b ↦ is_pending b.status ],
  record db { bookings = update_booking id cancel_pending db.bookings },
)
