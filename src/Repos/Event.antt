-- ===== src/Repos/Event.antt =====
-- backend/internal/repos/event.go: the reads of events and seats.
use seatsync.Prelude.{
  ℕ, suc, zero, Bool, true, false, ◌&&◌, ◌||◌, List, [], ◌∷◌, ◌++◌, map, Text, Result, leb, ltb,
  ◌==◌, if◌then◌else◌, keep, contains,
}
use seatsync.Models.{Event, Seat}
use seatsync.Db.{Db, BookingSeat}
use seatsync.Db.Rows.{find_event, sold_count}
use seatsync.Repos.{Error, classified}
use seatsync.Repos.Booking.{or_no_rows}

unfoldable pub get_event : ℕ → Db → Result Error Event
get_event id db = classified (or_no_rows (find_event id db.events))

-- Texts by their bytes.
unfoldable pub text_leb : Text → Text → Bool
text_leb [] y = true
text_leb (a ∷ x) [] = false
text_leb (a ∷ x) (b ∷ y) = ltb a b || (a == b && text_leb x y)

-- `ORDER BY section, "row", number`; the sections are compared by their bytes.
unfoldable pub seat_before : Seat → Seat → Bool
unfolding text_leb
seat_before s t =
    if text_leb s.section t.section
    then (if text_leb t.section s.section
        then ltb s.row t.row || (s.row == t.row && leb s.number t.number)
        else true)
    else false

unfoldable pub insert_seat : Seat → List Seat → List Seat
unfolding seat_before
insert_seat s [] = s ∷ []
insert_seat s (t ∷ ts) = if seat_before s t then s ∷ t ∷ ts else t ∷ insert_seat s ts

unfoldable pub sort_seats : List Seat → List Seat
unfolding insert_seat
sort_seats [] = []
sort_seats (s ∷ ss) = insert_seat s (sort_seats ss)

unfoldable pub seats_by_ids : ℕ → List ℕ → Db → List Seat
unfolding sort_seats
seats_by_ids venue_id seat_ids db =
    sort_seats (keep (λ s. s.venue_id == venue_id && contains seat_ids s.id) db.seats)

pub record SeatRow : Type 0 where
  pub seat : Seat
  pub confirmed : Bool

-- One row for each confirmed booking row of the seat, and one with none if there is no such row.
abbrev pub joined : Seat → ℕ → List SeatRow
joined s zero = record { seat = s; confirmed = false } ∷ []
joined s (suc zero) = record { seat = s; confirmed = true } ∷ []
joined s (suc (suc n)) = record { seat = s; confirmed = true } ∷ joined s (suc n)

unfoldable pub left_join : ℕ → List Seat → List BookingSeat → List SeatRow
left_join event_id [] rows = []
left_join event_id (s ∷ ss) rows =
    joined s (sold_count event_id s.id rows) ++ left_join event_id ss rows

unfoldable pub seats_for_event : ℕ → ℕ → Db → List SeatRow
unfolding sort_seats left_join
seats_for_event event_id venue_id db =
    left_join event_id (sort_seats (keep (λ s. s.venue_id == venue_id) db.seats)) db.booking_seats

unfoldable pub confirmed_seat_ids : ℕ → Db → List ℕ
confirmed_seat_ids event_id db =
    map (λ r. r.seat_id) (keep (λ r. r.event_id == event_id && r.confirmed) db.booking_seats)
