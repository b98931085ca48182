-- ===== src/Repos/Invariant.antt =====
-- What the schema and the transactions of backend/internal/repos keep true of the tables.
use seatsync.Prelude.{
  ℕ, ◌≤◌, ◌≡◌, Bool, true, false, Option, none, some, List, [], ◌∷◌, arith, All, Distinct,
  if◌then◌else◌,
}
use seatsync.Models.{Booking, is_confirmed}
use seatsync.Db.{Db, BookingSeat}
use seatsync.Db.Rows.{find_booking, sold_count, paid_count, one_if, confirmed_status}
use seatsync.Repos.Booking.{is_some}
use seatsync.Repos.Lookup.{ids}

-- `ck_bookings_confirmed_at`.
abbrev pub stamped : Option Booking → Bool
stamped none = true
stamped (some b) =
    if is_confirmed b.status
    then is_some b.confirmed_at
    else (if is_some b.confirmed_at then false else true)

abbrev pub Follows : List Booking → BookingSeat → Type 0
Follows bs r = r.confirmed ≡ confirmed_status (find_booking r.booking_id bs)

pub record IsConsistent (db : Db) : Type 0 where
  -- Booking ids are a key.
  pub ids_distinct : Distinct (ids db.bookings)
  -- A seat is sold at most once for an event.
  pub sold_once : (e s : ℕ) → sold_count e s db.booking_seats ≤ 1
  -- A seat row is confirmed exactly if its booking is.
  pub seats_follow : All (Follows db.bookings) db.booking_seats
  -- A booking has one successful payment if it is confirmed, and else none.
  pub paid_once :
      (i : ℕ) → paid_count i db.payments ≡ one_if (confirmed_status (find_booking i db.bookings))
  pub stamps : (i : ℕ) → stamped (find_booking i db.bookings) ≡ true

-- Two tables of bookings that agree on which bookings are confirmed.
abbrev pub SameConfirmed : List Booking → List Booking → Type 0
SameConfirmed bs bs' =
    (i : ℕ) → confirmed_status (find_booking i bs') ≡ confirmed_status (find_booking i bs)

pub Follows-same :
    (bs bs' : List Booking) (rs : List BookingSeat)
    → SameConfirmed bs bs'
    → All (Follows bs) rs
    → All (Follows bs') rs
Follows-same bs bs' [] h a = tt
Follows-same bs bs' (r ∷ rs) h a =
    (ground (arith, h r.booking_id, a.0), Follows-same bs bs' rs h a.1)

-- Other tables of bookings may stand in for these if no booking's confirmation changes.
pub with_bookings-IsConsistent :
    (db : Db) (bs : List Booking)
    → IsConsistent db
    → Distinct (ids bs)
    → SameConfirmed db.bookings bs
    → ((i : ℕ) → stamped (find_booking i bs) ≡ true)
    → IsConsistent (record db { bookings = bs })
with_bookings-IsConsistent db bs c d same st = record {
  ids_distinct = d;
  sold_once = c.sold_once;
  seats_follow = Follows-same db.bookings bs db.booking_seats same c.seats_follow;
  paid_once = λ i. ground (arith, c.paid_once i, same i);
  stamps = st;
}
