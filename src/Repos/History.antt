-- ===== src/Repos/History.antt =====
-- Every history of the transactions of backend/internal/repos, in any order and from any number of
-- callers.
use seatsync.Prelude.{
  ℕ, ◌≤◌, ◌≡◌, refl, sym, subst, Bool, false, Option, some, List, [], ◌∷◌, Text, arith, ok,
  Result-cases, inl, inr,
}
use seatsync.Models.{Booking, Event, Venue, Seat, is_pending, failed}
use seatsync.Httpx.{ApiError}
use seatsync.Db.{Db}
use seatsync.Db.Rows.{find_booking, sold_count, paid_count}
use seatsync.Repos.{in_tx-keeps, classified}
use seatsync.Repos.Booking.{
  create_pending, create_pending_tx, pending_booking, mark_cancelled, copy_rows,
}
use seatsync.Repos.Payment.{
  record_failure, insert_payment, payment_row, claim_idempotency_key, claim_tx, confirm, confirm_tx,
}
use seatsync.Repos.Expiry.{claim_expired}
use seatsync.Repos.Invariant.{IsConsistent}
use seatsync.Repos.SoldOnce.{confirm_rows-grows}
use seatsync.Repos.Keeps.{
  create_pending-IsConsistent, mark_cancelled-IsConsistent, copy_rows-sold_count,
}
use seatsync.Repos.KeepsPaid.{
  record_failure-IsConsistent, claim_idempotency_key-IsConsistent, claim_tx-eq-ok,
  confirm-IsConsistent, confirm_tx-eq-ok, claim_expired-IsConsistent,
}
use seatsync.Repos.Settled.{
  Stands, create_pending-Stands, mark_cancelled-Stands, record_failure-Stands,
  claim_idempotency_key-Stands, confirm-Stands, claim_expired-Stands,
}

-- The calls that write. What Postgres and the callers choose are arguments: fresh ids, times, the
-- rows that other transactions have locked, the answer of the lock check.
pub data Transaction : Type 0 where
  creates : ℕ → ℕ → ℕ → ℕ → List ℕ → ℕ → Text → ℕ → Transaction
  cancels : ℕ → Transaction
  claims : ℕ → Text → Transaction
  confirms : ℕ → ℕ → ℕ → ℕ → Text → Option ApiError → Transaction
  declines : ℕ → ℕ → ℕ → ℕ → Text → Transaction
  sweeps : ℕ → (ℕ → Bool) → ℕ → Transaction

unfoldable pub step : Transaction → Db → Db
step (creates id now user_id event_id seat_ids total token expires) db =
    (create_pending id now user_id event_id seat_ids total token expires db).1
step (cancels id) db = (mark_cancelled id db).1
step (claims id key) db = (claim_idempotency_key id key db).1
step (confirms payment_id now id amount ref verify) db =
    (confirm payment_id now id amount ref verify db).1
step (declines id now booking_id amount ref) db = (record_failure id now booking_id amount ref db).1
step (sweeps limit locked now) db = (claim_expired limit locked now db).1

unfoldable pub run : List Transaction → Db → Db
run [] db = db
run (t ∷ ts) db = run ts (step t db)

-- The tables before the first booking.
unfoldable pub catalogue : List ℕ → List Venue → List Event → List Seat → Db
catalogue users venues events seats = record {
  users = users;
  venues = venues;
  events = events;
  seats = seats;
  bookings = [];
  booking_seats = [];
  payments = [];
}

pub catalogue-IsConsistent :
    (users : List ℕ) (venues : List Venue) (events : List Event) (seats : List Seat)
    → IsConsistent (catalogue users venues events seats)
unfolding catalogue
catalogue-IsConsistent users venues events seats = record {
  ids_distinct = tt;
  sold_once = λ e s. unfold sold_count in omega arith;
  seats_follow = tt;
  paid_once = λ i. unfold find_booking paid_count in refl;
  stamps = λ i. unfold find_booking in refl;
}

pub step-IsConsistent : (t : Transaction) (db : Db) → IsConsistent db → IsConsistent (step t db)
unfolding step
step-IsConsistent (creates id now user_id event_id seat_ids total token expires) db c =
    create_pending-IsConsistent id now user_id event_id seat_ids total token expires db c
step-IsConsistent (cancels id) db c = mark_cancelled-IsConsistent id db c
step-IsConsistent (claims id key) db c = claim_idempotency_key-IsConsistent id key db c
step-IsConsistent (confirms payment_id now id amount ref verify) db c =
    confirm-IsConsistent payment_id now id amount ref verify db c
step-IsConsistent (declines id now booking_id amount ref) db c =
    record_failure-IsConsistent id now booking_id amount ref db c
step-IsConsistent (sweeps limit locked now) db c = claim_expired-IsConsistent limit locked now db c

-- Every history keeps the tables consistent: booking ids are distinct, each seat of an event has at
-- most one confirmed row, a seat row is confirmed exactly if its booking is, a booking has one
-- successful payment if it is confirmed and none if it is not, and `confirmed_at` is set exactly
-- when the booking is confirmed.
pub run-IsConsistent :
    (ts : List Transaction) (db : Db) → IsConsistent db → IsConsistent (run ts db)
unfolding run
run-IsConsistent [] db c = c
run-IsConsistent (t ∷ ts) db c = run-IsConsistent ts (step t db) (step-IsConsistent t db c)

-- From a catalogue with no bookings, no history sells a seat of an event twice.
pub sold_count-run :
    (users : List ℕ) (venues : List Venue) (events : List Event) (seats : List Seat)
    (ts : List Transaction) (e s : ℕ)
    → sold_count e s (run ts (catalogue users venues events seats)).booking_seats ≤ 1
sold_count-run users venues events seats ts =
    (run-IsConsistent ts _ (catalogue-IsConsistent users venues events seats)).sold_once

step-Stands :
    (t : Transaction) (j : ℕ) (b : Booking) (db : Db)
    → is_pending b.status ≡ false
    → IsConsistent db
    → Stands j b db
    → Stands j b (step t db)
unfolding step
step-Stands (creates id now user_id event_id seat_ids total token expires) j b db p c s =
    create_pending-Stands j b db p s id now user_id event_id seat_ids total token expires
step-Stands (cancels id) j b db p c s = mark_cancelled-Stands j b db p s id
step-Stands (claims id key) j b db p c s = claim_idempotency_key-Stands j b db p s id key
step-Stands (confirms payment_id now id amount ref verify) j b db p c s =
    confirm-Stands j b db p s payment_id now id amount ref verify
step-Stands (declines id now booking_id amount ref) j b db p c s =
    record_failure-Stands j b db p s id now booking_id amount ref
step-Stands (sweeps limit locked now) j b db p c s =
    claim_expired-Stands j b db p s limit locked now c

-- A booking that is confirmed, cancelled or expired stays in the table as it is, field by field,
-- through every history that starts from consistent tables.
pub find_booking-run :
    (ts : List Transaction) (j : ℕ) (b : Booking) (db : Db)
    → IsConsistent db
    → is_pending b.status ≡ false
    → find_booking j db.bookings ≡ some b
    → find_booking j (run ts db).bookings ≡ some b
unfolding run
find_booking-run [] j b db c p s = s
find_booking-run (t ∷ ts) j b db c p s =
    find_booking-run ts j b (step t db) (step-IsConsistent t db c) p (step-Stands t j b db p c s)

-- No transaction sells a seat back.
module _ (e s : ℕ) (db : Db) where
  abbrev StaysSold : Db → Type 0
  StaysSold db' = sold_count e s db.booking_seats ≤ sold_count e s db'.booking_seats

  create_pending_tx-StaysSold :
      (new : Booking) (seat_ids : List ℕ) (a : Booking) (db' : Db)
      → create_pending_tx new seat_ids db ≡ ok (a, db')
      → StaysSold db'
  unfolding create_pending_tx
  create_pending_tx-StaysSold new seat_ids a db' h =
      elim (Result-cases (copy_rows new.id new.event_id db.seats seat_ids db.booking_seats)) [
        | inl (rows, p) ↦ ground (
          arith,
          copy_rows-sold_count new.id new.event_id db.seats seat_ids db.booking_seats rows e s p,
        )
        | inr (x, p) ↦ absurd (ground arith)
      ]

  step-StaysSold : (t : Transaction) → StaysSold (step t db)
  unfolding step create_pending record_failure claim_idempotency_key confirm mark_cancelled
      claim_expired sold_count
  step-StaysSold (creates id now user_id event_id seat_ids total token expires) =
      let new = pending_booking id now user_id event_id total token expires in
      in_tx-keeps StaysSold (create_pending_tx new seat_ids) db (omega arith)
        (create_pending_tx-StaysSold new seat_ids)
  step-StaysSold (cancels id) = omega arith
  step-StaysSold (claims id key) =
      in_tx-keeps StaysSold (claim_tx id key) db (omega arith)
        (λ a db' h. ground (arith, claim_tx-eq-ok id key db a db' h))
  step-StaysSold (confirms payment_id now id amount ref verify) =
      in_tx-keeps StaysSold (confirm_tx payment_id now id amount ref verify) db (omega arith)
        λ a db' h.
          let k = confirm_tx-eq-ok payment_id now id amount ref verify db a db' h in
          subst StaysSold (sym k.wrote)
            (omega (arith, confirm_rows-grows id [] db.booking_seats k.rows e s k.passed))
  step-StaysSold (declines id now booking_id amount ref) =
      in_tx-keeps StaysSold
        (λ d. classified (insert_payment (payment_row id now failed booking_id amount ref) d)) db
        (omega arith) (λ a db' h. ground arith)
  step-StaysSold (sweeps limit locked now) = omega arith

run-StaysSold :
    (ts : List Transaction) (e s : ℕ) (db : Db)
    → sold_count e s db.booking_seats ≤ sold_count e s (run ts db).booking_seats
unfolding run
run-StaysSold [] e s db = omega arith
run-StaysSold (t ∷ ts) e s db =
    omega (arith, step-StaysSold e s db t, run-StaysSold ts e s (step t db))

-- A seat that is sold in consistent tables is sold after every history, and still to one booking.
pub sold_count-run_sold :
    (ts : List Transaction) (e s : ℕ) (db : Db)
    → IsConsistent db
    → sold_count e s db.booking_seats ≡ 1
    → sold_count e s (run ts db).booking_seats ≡ 1
sold_count-run_sold ts e s db c h =
    omega (arith, run-StaysSold ts e s db, (run-IsConsistent ts db c).sold_once e s)
