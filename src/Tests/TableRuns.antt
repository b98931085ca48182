-- ===== src/Tests/TableRuns.antt =====
-- A hall with two seats, 4 and 5, and two users, 1 and 2, who both want the seat 5 of event 3.
use seatsync.Prelude.{
  ℕ, ◌+◌, ◌*◌, ◌≤◌, ◌<◌, ◌≡◌, refl, false, none, some, List, [], ◌∷◌, codes, ok, arith, contains,
}
use seatsync.Models.{Booking, Event, Venue, Seat, succeeded}
use seatsync.Models.Price.{price, price-rounds}
use seatsync.Db.{Db}
use seatsync.Db.Rows.{
  find_booking, update_booking, find_event, seat_exists, sold_count, sold, paid_count,
}
use seatsync.Repos.Booking.{
  create_pending, create_pending_tx, pending_booking, insert_booking, copy_rows, has_row,
}
use seatsync.Repos.Payment.{
  confirm, confirm_tx, confirm_rows, confirm_booking, insert_payment, payment_row, has_payment,
}
use seatsync.Repos.Expiry.{ExpiredRow, group_rows}
use seatsync.Repos.Invariant.{IsConsistent}
use seatsync.Repos.Success.{Sellable, marked, confirm-succeeds}
use seatsync.Repos.Groups.{ungroup, Apart, ungroup-group_rows}
use seatsync.Repos.History.{
  Transaction, creates, confirms, sweeps, step, run, catalogue, catalogue-IsConsistent,
  run-IsConsistent, sold_count-run, find_booking-run, sold_count-run_sold,
}

abbrev pub events : List Event
events =
    record {
      id = 3;
      venue_id = 9;
      title = codes "Concert";
      description = [];
      starts_at = 90000;
      base_price = 100;
      created_at = 0;
    }
    ∷ []

abbrev pub venues : List Venue
venues = record { id = 9; name = codes "Hall"; city = codes "Pune" } ∷ []

abbrev pub hall_seat : ℕ → Seat
hall_seat id = record {
  id = id;
  venue_id = 9;
  section = codes "A";
  row = 1;
  number = id;
  price_multiplier_bp = 150;
}

abbrev pub seats : List Seat
seats = hall_seat 4 ∷ hall_seat 5 ∷ []

abbrev pub hall : Db
hall = catalogue (1 ∷ 2 ∷ []) venues events seats

abbrev held_first : Transaction
held_first = creates 10 1000 1 3 (4 ∷ 5 ∷ []) 300 (codes "t") 5000

abbrev held_second : Transaction
held_second = creates 11 1100 2 3 (5 ∷ []) 150 (codes "u") 5100

abbrev bought_first : Transaction
bought_first = confirms 20 2000 10 300 (codes "ref") none

abbrev bought_second : Transaction
bought_second = confirms 21 2100 11 150 (codes "ref") none

abbrev swept_all : Transaction
swept_all = sweeps 200 (λ id. false) 6000

price-rounds_example : (100 * price 150 33 ≤ 33 * 150 + 50) × (33 * 150 < 100 * price 150 33 + 50)
price-rounds_example = price-rounds 150 33 (omega arith)

sold_count-run_example :
    sold_count 3 5
      (run
        (held_first ∷ held_second ∷ bought_second ∷ bought_first ∷ swept_all ∷ [])
        hall).booking_seats
    ≤ 1
sold_count-run_example =
    sold_count-run (1 ∷ 2 ∷ []) venues events seats
      (held_first ∷ held_second ∷ bought_second ∷ bought_first ∷ swept_all ∷ []) 3 5

hall-IsConsistent : IsConsistent hall
hall-IsConsistent = catalogue-IsConsistent (1 ∷ 2 ∷ []) venues events seats

run-IsConsistent_example :
    IsConsistent (run (held_first ∷ held_second ∷ bought_second ∷ bought_first ∷ []) hall)
run-IsConsistent_example =
    run-IsConsistent (held_first ∷ held_second ∷ bought_second ∷ bought_first ∷ []) hall
      (catalogue-IsConsistent (1 ∷ 2 ∷ []) venues events seats)

-- The first booking has been paid; the second is pending.
abbrev first_sale : Db
first_sale = run (held_first ∷ held_second ∷ bought_first ∷ []) hall

first_sale-IsConsistent : IsConsistent first_sale
first_sale-IsConsistent =
    run-IsConsistent (held_first ∷ held_second ∷ bought_first ∷ []) hall hall-IsConsistent

abbrev first_bought : Booking
first_bought = confirm_booking 2000 (pending_booking 10 1000 1 3 300 (codes "t") 5000)

find_booking-run_example :
    find_booking 10 (run (bought_second ∷ swept_all ∷ []) first_sale).bookings ≡ some first_bought
unfolding run step catalogue create_pending create_pending_tx insert_booking pending_booking
    copy_rows has_row find_booking find_event seat_exists contains confirm confirm_tx confirm_rows
    sold update_booking insert_payment payment_row paid_count has_payment
find_booking-run_example =
    find_booking-run (bought_second ∷ swept_all ∷ []) 10 first_bought first_sale
      first_sale-IsConsistent refl refl

sold_count-run_sold_example :
    sold_count 3 5 (run (bought_second ∷ swept_all ∷ []) first_sale).booking_seats ≡ 1
unfolding run step catalogue create_pending create_pending_tx insert_booking pending_booking
    copy_rows has_row find_booking find_event seat_exists contains confirm confirm_tx confirm_rows
    sold update_booking insert_payment payment_row paid_count has_payment sold_count
sold_count-run_sold_example =
    sold_count-run_sold (bought_second ∷ swept_all ∷ []) 3 5 first_sale first_sale-IsConsistent refl

-- Both bookings are pending.
abbrev two_holds : Db
two_holds = run (held_first ∷ held_second ∷ []) hall

two_holds-IsConsistent : IsConsistent two_holds
two_holds-IsConsistent = run-IsConsistent (held_first ∷ held_second ∷ []) hall hall-IsConsistent

abbrev lost_row : ℕ → ℕ → ExpiredRow
lost_row booking_id seat_id = record { booking_id = booking_id; event_id = 3; seat_id = seat_id }

abbrev lost_rows : List ExpiredRow
lost_rows = lost_row 10 4 ∷ lost_row 10 5 ∷ lost_row 11 6 ∷ []

ungroup-group_rows_example :
    (ungroup (group_rows lost_rows) ≡ lost_rows) × Apart (group_rows lost_rows)
ungroup-group_rows_example = ungroup-group_rows (λ i. 3) lost_rows (refl, (refl, (refl, tt)))

two_holds-Sellable : Sellable 10 two_holds.booking_seats
unfolding run step catalogue create_pending create_pending_tx insert_booking pending_booking
    copy_rows has_row find_booking find_event seat_exists contains marked sold_count
two_holds-Sellable e s = ground arith

confirm-succeeds_example :
    let paid = payment_row 20 2000 succeeded 10 300 (codes "ref") in
    let first = pending_booking 10 1000 1 3 300 (codes "t") 5000 in
    let outcome = confirm 20 2000 10 300 (codes "ref") none two_holds in
    (outcome.0 ≡ ok (confirm_booking 2000 first, paid))
    × (find_booking 10 outcome.1.bookings ≡ some (confirm_booking 2000 first))
    × (outcome.1.payments ≡ paid ∷ two_holds.payments)
unfolding run step catalogue create_pending create_pending_tx insert_booking pending_booking
    copy_rows has_row find_booking find_event seat_exists contains has_payment
confirm-succeeds_example =
    confirm-succeeds 20 2000 10 300 (codes "ref") two_holds
      (pending_booking 10 1000 1 3 300 (codes "t") 5000) two_holds-IsConsistent refl refl refl
      two_holds-Sellable
