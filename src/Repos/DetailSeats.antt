-- ===== src/Repos/DetailSeats.antt =====
-- What `GetDetail` of backend/internal/repos/booking.go answers.
use mathlib.Core.List.{append_assoc, append-nil}
use seatsync.Prelude.{
  ℕ, ◌<◌, ◌≡◌, refl, sym, ◌∙◌, ap, inl, inr, Option-cases, true, false, ◌&&◌, Option, none, some,
  List, [], ◌∷◌, ◌++◌, map, ok, ◌==◌, All, arith,
}
use seatsync.Models.{Booking, BookedSeat, BookingDetail, Event, Seat, Venue}
use seatsync.Db.{BookingSeat, Db}
use seatsync.Db.Rows.{find_booking, find_event, seat_exists}
use seatsync.Repos.Details.{
  append_seat, booked_seat, by_seat, detail_rows, DetailRow, find_seat, find_venue, get_detail,
  join_seat, read_detail, rows_at_event, rows_at_venue, rows_of, seat_rows, without_seats,
}
use seatsync.Repos.{classified}
use seatsync.Repos.Booking.{or_no_rows}
use seatsync.Repos.Order.{All-either, All-order_by, count_where, count_where-order_by, order_by}

-- How often a seat stands in an answer, and in the rows of a booking.
abbrev pub listed : ℕ → List BookedSeat → ℕ
listed s seats = count_where (λ x. x.seat_id == s) seats

abbrev pub reserved : ℕ → ℕ → List BookingSeat → ℕ
reserved b s rows = count_where (λ r. r.booking_id == b && r.seat_id == s) rows

abbrev joined_seat : ℕ → List DetailRow → ℕ
joined_seat s rows = count_where (λ r. (r.seat).id == s) rows

find_seat-id : (i : ℕ) (ss : List Seat) (s : Seat) → find_seat i ss ≡ some s → s.id ≡ i
unfolding find_seat
find_seat-id i [] s h = ground arith
find_seat-id i (t ∷ ss) s h = ground (arith, find_seat-id i ss s)

find_seat-exists : (i : ℕ) (ss : List Seat) → find_seat i ss ≡ none → seat_exists i ss ≡ false
unfolding find_seat seat_exists
find_seat-exists i [] h = refl
find_seat-exists i (t ∷ ss) h = ground (arith, find_seat-exists i ss)

-- Where all the seats of the booking's rows exist, the join loses none.
abbrev pub SeatsExist : ℕ → Db → Type 0
SeatsExist b db =
    All (λ r. r.booking_id ≡ b → seat_exists r.seat_id db.seats ≡ true) db.booking_seats

joined_seat-seat_rows :
    (b : Booking) (e : Event) (v : Venue) (seats : List Seat) (rows : List BookingSeat) (s : ℕ)
    → All (λ r. r.booking_id ≡ b.id → seat_exists r.seat_id seats ≡ true) rows
    → joined_seat s (seat_rows b e v seats rows) ≡ reserved b.id s rows
unfolding seat_rows count_where
joined_seat-seat_rows b e v seats [] s h = refl
joined_seat-seat_rows b e v seats (r ∷ rows) s h =
    let rest = joined_seat-seat_rows b e v seats rows s h.1 in
    elim (Option-cases (find_seat r.seat_id seats)) [
      | inl n ↦ rw n (ground (arith, rest, h.0, find_seat-exists r.seat_id seats n))
      | inr (t, f) ↦ rw f (ground (arith, rest, find_seat-id r.seat_id seats t f))
    ]

-- All rows of a booking are of its event and venue.
abbrev Joins : Booking → Event → Venue → DetailRow → Type 0
Joins b e v r = (r.booking ≡ b) × (r.event ≡ e) × (r.venue ≡ v)

join_seat-Joins :
    (b : Booking) (e : Event) (v : Venue) (o : Option Seat) (rest : List DetailRow)
    → All (Joins b e v) rest
    → All (Joins b e v) (join_seat b e v o rest)
join_seat-Joins b e v none rest h = h
join_seat-Joins b e v (some s) rest h = ((refl, refl, refl), h)

seat_rows-Joins :
    (b : Booking) (e : Event) (v : Venue) (seats : List Seat) (rows : List BookingSeat)
    → All (Joins b e v) (seat_rows b e v seats rows)
unfolding seat_rows
seat_rows-Joins b e v seats [] = tt
seat_rows-Joins b e v seats (r ∷ rows) =
    let rest = seat_rows-Joins b e v seats rows in
    All-either (Joins b e v) (r.booking_id == b.id) _ _
      (join_seat-Joins b e v (find_seat r.seat_id seats) _ rest) rest

-- The loop appends the rows' seats.
read_detail-some :
    (d : BookingDetail) (rs : List DetailRow)
    → read_detail (some d) rs ≡ some (record d { seats = d.seats ++ map booked_seat rs })
unfolding read_detail
read_detail-some d [] = ap (λ l. some (record d { seats = l })) (sym (append-nil d.seats))
read_detail-some d (r ∷ rs) =
    read_detail-some (append_seat d r) rs
    ∙ ap (λ l. some (record d { seats = l }))
        (append_assoc d.seats (booked_seat r ∷ []) (map booked_seat rs))

listed-booked_seat :
    (s : ℕ) (rs : List DetailRow) → listed s (map booked_seat rs) ≡ joined_seat s rs
unfolding count_where booked_seat
listed-booked_seat s [] = refl
listed-booked_seat s (r ∷ rs) = grind (arith, listed-booked_seat s rs)

-- The answer is of the booking, its event and its venue, and has the seats that its rows name.
pub record IsDetail (b : Booking) (e : Event) (v : Venue) (db : Db) (d : BookingDetail)
    : Type 0 where
  pub booking_is : d.booking ≡ b
  pub title_is : d.event_title ≡ e.title
  pub start_is : d.event_starts_at ≡ e.starts_at
  pub venue_is : d.venue_name ≡ v.name
  pub seats_are : (s : ℕ) → listed s d.seats ≡ reserved b.id s db.booking_seats

read_rows :
    (b : Booking) (e : Event) (v : Venue) (db : Db) (s : ℕ) (rs : List DetailRow)
    → All (Joins b e v) rs
    → ((s : ℕ) → joined_seat s rs ≡ reserved b.id s db.booking_seats)
    → 0 < reserved b.id s db.booking_seats
    → (d : BookingDetail) × (read_detail none rs ≡ some d) × IsDetail b e v db d
unfolding read_detail
read_rows b e v db s [] joins counts one =
    let zero_rows : joined_seat s [] ≡ 0 = unfold count_where in refl in
    absurd (omega (arith, zero_rows, counts s))
read_rows b e v db s (r ∷ rs) (j, js) counts one = (
  record (without_seats r) { seats = map booked_seat (r ∷ rs) },
  read_detail-some (append_seat (without_seats r) r) rs,
  record {
    booking_is = j.0;
    title_is = ap (λ e. e.title) j.1;
    start_is = ap (λ e. e.starts_at) j.1;
    venue_is = ap (λ v. v.name) j.2;
    seats_are = λ t. listed-booked_seat t (r ∷ rs) ∙ counts t;
  },
)

detail_rows-seat_rows :
    (b : Booking) (e : Event) (v : Venue) (db : Db)
    → find_event b.event_id db.events ≡ some e
    → find_venue e.venue_id db.venues ≡ some v
    → detail_rows b db ≡ seat_rows b e v db.seats db.booking_seats
unfolding detail_rows
detail_rows-seat_rows b e v db fe fv =
    ap (λ o. rows_at_event b o db) fe ∙ ap (λ o. rows_at_venue b e o db) fv

-- A booking with a seat row, whose event, venue and seats exist, is found.
pub get_detail-IsDetail :
    (b : Booking) (e : Event) (v : Venue) (db : Db) (id s : ℕ)
    → find_booking id db.bookings ≡ some b
    → find_event b.event_id db.events ≡ some e
    → find_venue e.venue_id db.venues ≡ some v
    → SeatsExist b.id db
    → 0 < reserved b.id s db.booking_seats
    → (d : BookingDetail) × (get_detail id db ≡ ok d) × IsDetail b e v db d
unfolding get_detail
get_detail-IsDetail b e v db id s fb fe fv exist one =
    let rows = seat_rows b e v db.seats db.booking_seats in
    let found =
      read_rows b e v db s (order_by by_seat rows)
        (All-order_by by_seat (Joins b e v) rows (seat_rows-Joins b e v db.seats db.booking_seats))
        (λ t.
          count_where-order_by by_seat (λ r. (r.seat).id == t) rows
          ∙ joined_seat-seat_rows b e v db.seats db.booking_seats t exist)
        one in
    (
      found.0,
      ap (λ o. classified (or_no_rows o))
          (ap (λ o. read_detail none (order_by by_seat (rows_of o db))) fb
            ∙ ap (λ r. read_detail none (order_by by_seat r)) (detail_rows-seat_rows b e v db fe fv)
            ∙ found.1),
      found.2,
    )
