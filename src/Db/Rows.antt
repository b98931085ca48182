-- ===== src/Db/Rows.antt =====
-- Row lookups, updates and index tests over the tables, with the lemmas by which the repositories'
-- proofs read them.
use seatsync.Prelude.{
  ℕ, ◌+◌, ◌≡◌, refl, Bool, true, false, ◌&&◌, ◌||◌, Option, none, some, List, [], ◌∷◌, arith, ◌==◌,
  if◌then◌else◌,
}
use seatsync.Models.{Booking, is_confirmed, Payment, is_succeeded, Event, Seat}
use seatsync.Db.{BookingSeat}

-- `SELECT … FROM bookings WHERE id = $1`.
unfoldable pub find_booking : ℕ → List Booking → Option Booking
find_booking i [] = none
find_booking i (b ∷ bs) = if b.id == i then some b else find_booking i bs

-- `UPDATE bookings SET … WHERE id = $1 …`; the change `f` tests the rest of the condition.
unfoldable pub update_booking : ℕ → (Booking → Booking) → List Booking → List Booking
update_booking i f [] = []
update_booking i f (b ∷ bs) = (if b.id == i then f b else b) ∷ update_booking i f bs

unfoldable pub find_event : ℕ → List Event → Option Event
find_event i [] = none
find_event i (e ∷ es) = if e.id == i then some e else find_event i es

unfoldable pub seat_exists : ℕ → List Seat → Bool
seat_exists i [] = false
seat_exists i (s ∷ ss) = s.id == i || seat_exists i ss

-- A confirmed row for the seat: an entry of uq_booking_seats_confirmed_seat.
abbrev pub sells : ℕ → ℕ → BookingSeat → Bool
sells e s r = r.confirmed && (r.event_id == e && r.seat_id == s)

unfoldable pub sold : ℕ → ℕ → List BookingSeat → Bool
sold e s [] = false
sold e s (r ∷ rs) = sells e s r || sold e s rs

abbrev pub one_if : Bool → ℕ
one_if true = 1
one_if false = 0

-- How many confirmed rows name the seat.
unfoldable pub sold_count : ℕ → ℕ → List BookingSeat → ℕ
sold_count e s [] = 0
sold_count e s (r ∷ rs) = one_if (sells e s r) + sold_count e s rs

-- How many successful payments a booking has: the entries of uq_payments_one_success_per_booking.
abbrev pub pays : ℕ → Payment → Bool
pays i p = is_succeeded p.status && p.booking_id == i

unfoldable pub paid_count : ℕ → List Payment → ℕ
paid_count i [] = 0
paid_count i (p ∷ ps) = one_if (pays i p) + paid_count i ps

-- Whether the booking exists and is confirmed.
abbrev pub confirmed_status : Option Booking → Bool
confirmed_status none = false
confirmed_status (some b) = is_confirmed b.status

pub sold_iff-count : (e s : ℕ) (rs : List BookingSeat) → sold e s rs ≡ false → sold_count e s rs ≡ 0
unfolding sold sold_count
sold_iff-count e s [] h = refl
sold_iff-count e s (r ∷ rs) h = ground (arith, sold_iff-count e s rs)

abbrev pub map_if {ℓ} : {A : Type ℓ} → Bool → (A → A) → Option A → Option A
map_if c f none = none
map_if c f (some a) = some (if c then f a else a)

-- An update that keeps the id changes what is found under that id only.
pub find_booking-update :
    (i j : ℕ) (f : Booking → Booking) (bs : List Booking)
    → ((b : Booking) → (f b).id ≡ b.id)
    → find_booking j (update_booking i f bs) ≡ map_if (i == j) f (find_booking j bs)
unfolding find_booking update_booking
find_booking-update i j f [] k = refl
find_booking-update i j f (b ∷ bs) k = ground (arith, k b, find_booking-update i j f bs k)

pub find_booking-id :
    (i : ℕ) (bs : List Booking) (b : Booking) → find_booking i bs ≡ some b → b.id ≡ i
unfolding find_booking
find_booking-id i [] b h = ground arith
find_booking-id i (c ∷ bs) b h = ground (arith, find_booking-id i bs b)
