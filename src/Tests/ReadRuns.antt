-- ===== src/Tests/ReadRuns.antt =====
-- What a user reads of a booking of the seats 4 and 5, and what another user does.
use seatsync.Prelude.{
  ℕ, suc, ◌≡◌, ◌≢◌, ◌*◌, ◌%◌, refl, arith, contains, [], ◌∷◌, codes, ok, err, leb, if◌then◌else◌,
}
use seatsync.Models.{Booking, BookedSeat, BookingDetail, Event, Venue}
use seatsync.Models.Price.{price, listed_price, listed_price-price}
use seatsync.Db.{Db}
use seatsync.Db.Rows.{find_booking, find_event, seat_exists}
use seatsync.Repos.Booking.{
  create_pending, create_pending_tx, pending_booking, insert_booking, copy_rows, has_row,
}
use seatsync.Repos.Event.{text_leb, seat_before}
use seatsync.Repos.Order.{order_by, insert_row, count_where}
use seatsync.Repos.Details.{
  find_venue, find_seat, seat_rows, detail_rows, booked_seat, user_rows, list_from, list_rows,
  list_for_user,
}
use seatsync.Repos.DetailSeats.{IsDetail}
use seatsync.Repos.History.{catalogue, creates, run, step}
use seatsync.Services.Holds.{booking_not_found}
use seatsync.Services.Reads.{get_booking}
use seatsync.Services.OwnBookings.{get_booking-own}
use seatsync.Services.World.{World}
use seatsync.Tests.TableRuns.{hall}
use seatsync.Tests.ServiceRuns.{locker, quiet, opening}

abbrev concert : Event
concert = record {
  id = 3;
  venue_id = 9;
  title = codes "Concert";
  description = [];
  starts_at = 90000;
  base_price = 100;
  created_at = 0;
}

abbrev the_hall : Venue
the_hall = record { id = 9; name = codes "Hall"; city = codes "Pune" }

abbrev two_seats : Booking
two_seats = pending_booking 14 1000 1 3 300 (codes "t") 601000

abbrev tables : Db
tables = run (creates 14 1000 1 3 (5 ∷ 4 ∷ []) 300 (codes "t") 601000 ∷ []) hall

abbrev pub reading_room : World locker
reading_room = record { shared = record opening { db = tables }; calls = 0 }

get_booking-own_example :
    (two_seats.user_id ≡ 1
      → (d : BookingDetail) × ((get_booking locker quiet 1 14 reading_room).0 ≡ ok d)
        × IsDetail two_seats concert the_hall tables d)
    × (two_seats.user_id ≢ 1
        → (get_booking locker quiet 1 14 reading_room).0 ≡ err booking_not_found)
unfolding run step catalogue create_pending create_pending_tx insert_booking pending_booking
    copy_rows has_row find_booking find_event seat_exists find_venue count_where contains
get_booking-own_example =
    get_booking-own locker quiet 1 14 4 reading_room two_seats concert the_hall refl refl refl refl
      ((λ h. refl), ((λ h. refl), tt)) (omega arith)

listed_price-price_example :
    listed_price 150 100 ≡ (if leb 50 (100 * 150 % 100) then price 150 100 else suc (price 150 100))
listed_price-price_example = listed_price-price 150 100 (omega arith)

abbrev shown_seat : ℕ → BookedSeat
shown_seat n = record { seat_id = n; section = codes "A"; row = 1; number = n; price = 151 }

-- The booking was charged at 300.
list_for_user-two_seats :
    list_for_user 1 tables
    ≡ record {
      booking = two_seats;
      event_title = codes "Concert";
      event_starts_at = 90000;
      venue_name = codes "Hall";
      seats = shown_seat 4 ∷ shown_seat 5 ∷ [];
    }
      ∷ []
unfolding run step catalogue create_pending create_pending_tx insert_booking pending_booking
    copy_rows has_row find_booking find_event seat_exists find_venue find_seat seat_rows detail_rows
    booked_seat user_rows list_from list_rows list_for_user order_by insert_row seat_before text_leb
    listed_price contains
list_for_user-two_seats = refl
