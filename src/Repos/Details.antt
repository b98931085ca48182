-- ===== src/Repos/Details.antt =====
-- The reads of backend/internal/repos/booking.go and event.go that join a booking to its event, its venue
-- and its seats, and an event to its venue.
use seatsync.Prelude.{
  ℕ, Bool, ◌&&◌, ◌||◌, Option, none, some, List, [], ◌∷◌, ◌++◌, Result, leb, ltb, ◌==◌,
  if◌then◌else◌, keep,
}
use seatsync.Models.{Booking, BookedSeat, BookingDetail, Event, EventWithVenue, Seat, Venue}
use seatsync.Models.Price.{listed_price}
use seatsync.Db.{BookingSeat, Db}
use seatsync.Db.Rows.{find_booking, find_event}
use seatsync.Repos.{Error, classified}
use seatsync.Repos.Booking.{or_no_rows}
use seatsync.Repos.Event.{seat_before}
use seatsync.Repos.Order.{count_where, order_by}

unfoldable pub find_venue : ℕ → List Venue → Option Venue
find_venue i [] = none
find_venue i (v ∷ vs) = if v.id == i then some v else find_venue i vs

unfoldable pub find_seat : ℕ → List Seat → Option Seat
find_seat i [] = none
find_seat i (s ∷ ss) = if s.id == i then some s else find_seat i ss

-- One row of the join.
pub record DetailRow : Type 0 where
  pub booking : Booking
  pub event : Event
  pub venue : Venue
  pub seat : Seat

abbrev pub join_seat : Booking → Event → Venue → Option Seat → List DetailRow → List DetailRow
join_seat b e v none rest = rest
join_seat b e v (some s) rest = record { booking = b; event = e; venue = v; seat = s } ∷ rest

-- `JOIN booking_seats … JOIN seats …`, for one booking.
unfoldable pub seat_rows : Booking → Event → Venue → List Seat → List BookingSeat → List DetailRow
unfolding find_seat
seat_rows b e v seats [] = []
seat_rows b e v seats (r ∷ rs) =
    let rest = seat_rows b e v seats rs in
    if r.booking_id == b.id then join_seat b e v (find_seat r.seat_id seats) rest else rest

-- `JOIN events … JOIN venues …`
abbrev pub rows_at_venue : Booking → Event → Option Venue → Db → List DetailRow
rows_at_venue b e none db = []
rows_at_venue b e (some v) db = seat_rows b e v db.seats db.booking_seats

abbrev pub rows_at_event : Booking → Option Event → Db → List DetailRow
rows_at_event b none db = []
rows_at_event b (some e) db = rows_at_venue b e (find_venue e.venue_id db.venues) db

unfoldable pub detail_rows : Booking → Db → List DetailRow
unfolding find_venue seat_rows
detail_rows b db = rows_at_event b (find_event b.event_id db.events) db

unfoldable pub booked_seat : DetailRow → BookedSeat
booked_seat r = record {
  seat_id = (r.seat).id;
  section = (r.seat).section;
  row = (r.seat).row;
  number = (r.seat).number;
  price = listed_price (r.seat).price_multiplier_bp (r.event).base_price;
}

abbrev pub without_seats : DetailRow → BookingDetail
without_seats r = record {
  booking = r.booking;
  event_title = (r.event).title;
  event_starts_at = (r.event).starts_at;
  venue_name = (r.venue).name;
  seats = [];
}

abbrev pub append_seat : BookingDetail → DetailRow → BookingDetail
append_seat d r = record d { seats = d.seats ++ booked_seat r ∷ [] }

-- `ORDER BY s.section, s."row", s.number`
abbrev pub by_seat : DetailRow → DetailRow → Bool
by_seat r t = seat_before r.seat t.seat

-- The loop of `GetDetail`.
unfoldable pub read_detail : Option BookingDetail → List DetailRow → Option BookingDetail
unfolding booked_seat
read_detail d [] = d
read_detail none (r ∷ rs) = read_detail (some (append_seat (without_seats r) r)) rs
read_detail (some d) (r ∷ rs) = read_detail (some (append_seat d r)) rs

-- The rows `WHERE b.id = $1`, an id that one booking has at most.
abbrev pub rows_of : Option Booking → Db → List DetailRow
rows_of none db = []
rows_of (some b) db = detail_rows b db

unfoldable pub get_detail : ℕ → Db → Result Error BookingDetail
unfolding read_detail
get_detail id db =
    classified
      (or_no_rows (read_detail none (order_by by_seat (rows_of (find_booking id db.bookings) db))))

unfoldable pub user_rows : List Booking → Db → List DetailRow
user_rows [] db = []
user_rows (b ∷ bs) db = detail_rows b db ++ user_rows bs db

-- `ORDER BY b.created_at DESC, s.section, s."row", s.number`
abbrev pub newest_first : DetailRow → DetailRow → Bool
newest_first r t =
    ltb (t.booking).created_at (r.booking).created_at
    || ((t.booking).created_at == (r.booking).created_at && by_seat r t)

-- The loop of `ListForUser`; `current` is the last booking of the answer.
unfoldable pub list_from : BookingDetail → List DetailRow → List BookingDetail
unfolding booked_seat
list_from current [] = current ∷ []
list_from current (r ∷ rs) =
    let same = list_from (append_seat current r) rs in
    let other = current ∷ list_from (append_seat (without_seats r) r) rs in
    if (current.booking).id == (r.booking).id then same else other

unfoldable pub list_rows : List DetailRow → List BookingDetail
unfolding list_from booked_seat
list_rows [] = []
list_rows (r ∷ rs) = list_from (append_seat (without_seats r) r) rs

unfoldable pub list_for_user : ℕ → Db → List BookingDetail
unfolding user_rows list_rows
list_for_user user_id db =
    list_rows (order_by newest_first (user_rows (keep (λ b. b.user_id == user_id) db.bookings) db))

abbrev pub with_venue : Event → Option Venue → Db → List EventWithVenue → List EventWithVenue
with_venue e none db rest = rest
with_venue e (some v) db rest =
    record {
      event = e;
      venue = v;
      seats_total = count_where (λ s. s.venue_id == v.id) db.seats;
      seats_confirmed = count_where (λ r. r.event_id == e.id && r.confirmed) db.booking_seats;
    }
    ∷ rest

-- `listQuery`
unfoldable pub list_query : List Event → Db → List EventWithVenue
unfolding find_venue
list_query [] db = []
list_query (e ∷ es) db = with_venue e (find_venue e.venue_id db.venues) db (list_query es db)

-- `ORDER BY (e.starts_at < now()), e.starts_at ASC`; false comes before true.
abbrev pub upcoming_first : ℕ → EventWithVenue → EventWithVenue → Bool
upcoming_first now x y =
    let past_x = ltb (x.event).starts_at now in
    let past_y = ltb (y.event).starts_at now in
    let in_order = leb (x.event).starts_at (y.event).starts_at in
    if past_x then past_y && in_order else past_y || in_order

unfoldable pub all_events : ℕ → Db → List EventWithVenue
unfolding list_query
all_events now db = order_by (upcoming_first now) (list_query db.events db)

abbrev pub first_row {ℓ} : {A : Type ℓ} → List A → Option A
first_row [] = none
first_row (x ∷ xs) = some x

unfoldable pub event_by_id : ℕ → Db → Result Error EventWithVenue
unfolding list_query
event_by_id id db =
    classified (or_no_rows (first_row (list_query (keep (λ e. e.id == id) db.events) db)))
