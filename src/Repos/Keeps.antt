-- ===== src/Repos/Keeps.antt =====
-- Every transaction of backend/internal/repos on the booking tables keeps them consistent.
use seatsync.Prelude.{
  ℕ, ◌≡◌, refl, ap, subst, true, false, Option, none, some, List, [], ◌∷◌, Text, arith, ◌==◌, All,
  ok, ok-injective, Bool-cases, Result-cases, inl, inr,
}
use seatsync.Models.{Booking, Seat, is_confirmed}
use seatsync.Db.{Db, BookingSeat}
use seatsync.Db.Rows.{
  find_booking, update_booking, map_if, sold_count, confirmed_status, find_booking-update,
}
use seatsync.Repos.{in_tx-keeps}
use seatsync.Repos.Booking.{
  insert_booking, copy_rows, create_pending, create_pending_tx, pending_booking, cancel_pending,
  mark_cancelled,
}
use seatsync.Repos.Lookup.{ids-update, contains-ids}
use seatsync.Repos.Invariant.{
  IsConsistent, Follows, Follows-same, SameConfirmed, stamped, with_bookings-IsConsistent,
}

pub copy_rows-sold_count :
    (i e : ℕ) (seats : List Seat) (ss : List ℕ) (rows out : List BookingSeat) (e' s' : ℕ)
    → copy_rows i e seats ss rows ≡ ok out
    → sold_count e' s' out ≡ sold_count e' s' rows
unfolding copy_rows sold_count
copy_rows-sold_count i e seats [] rows out e' s' h = ground arith
copy_rows-sold_count i e seats (s ∷ ss) rows out e' s' h = ground (
  arith,
  copy_rows-sold_count i e seats ss
      (record { booking_id = i; seat_id = s; event_id = e; confirmed = false } ∷ rows) out e' s',
)

copy_rows-All {ℓ} :
    (Q : BookingSeat → Type ℓ) (i e : ℕ) (seats : List Seat) (ss : List ℕ)
    (rows out : List BookingSeat)
    → ((s : ℕ) → Q (record { booking_id = i; seat_id = s; event_id = e; confirmed = false }))
    → All Q rows
    → copy_rows i e seats ss rows ≡ ok out
    → All Q out
unfolding copy_rows
copy_rows-All Q i e seats [] rows out new a h = rw (ok-injective h) at a
copy_rows-All Q i e seats (s ∷ ss) rows out new a h =
    copy_rows-All Q i e seats ss
      (record { booking_id = i; seat_id = s; event_id = e; confirmed = false } ∷ rows) out new
      (new s, a) (ground arith)

-- A successful insert adds the row under an id that no booking has.
insert_booking-eq-ok :
    (b : Booking) (db : Db) (b' : Booking) (db' : Db)
    → insert_booking b db ≡ ok (b', db')
    → (b' ≡ b)
      × (db' ≡ record db { bookings = b ∷ db.bookings })
      × (find_booking b.id db.bookings ≡ none)
unfolding insert_booking
insert_booking-eq-ok b db b' db' h = ground arith

SameConfirmed-insert :
    (b : Booking) (bs : List Booking)
    → is_confirmed b.status ≡ false
    → find_booking b.id bs ≡ none
    → SameConfirmed bs (b ∷ bs)
unfolding find_booking
SameConfirmed-insert b bs p fresh i = elim (Bool-cases (b.id == i)) [
  | inl hit ↦ let e : b.id ≡ i = ground arith in ground (arith, ap (λ k. find_booking k bs) e)
  | inr miss ↦ ground arith
]

-- The new row and its seats, none of them confirmed, keep the tables consistent.
insert_pending-IsConsistent :
    (b : Booking) (seat_ids : List ℕ) (db : Db) (rows : List BookingSeat)
    → is_confirmed b.status ≡ false
    → b.confirmed_at ≡ none
    → find_booking b.id db.bookings ≡ none
    → copy_rows b.id b.event_id db.seats seat_ids db.booking_seats ≡ ok rows
    → IsConsistent db
    → IsConsistent (record db { bookings = b ∷ db.bookings; booking_seats = rows })
unfolding find_booking
insert_pending-IsConsistent b seat_ids db rows p at fresh copied c = record {
  ids_distinct = (ground (arith, contains-ids b.id db.bookings), c.ids_distinct);
  sold_once = λ e s. ground (
    arith,
    c.sold_once e s,
    copy_rows-sold_count b.id b.event_id db.seats seat_ids db.booking_seats rows e s,
  );
  seats_follow =
      copy_rows-All (Follows (b ∷ db.bookings)) b.id b.event_id db.seats seat_ids db.booking_seats
        rows (λ s. ground arith)
        (Follows-same db.bookings (b ∷ db.bookings) db.booking_seats same c.seats_follow) copied;
  paid_once = λ i. ground (arith, c.paid_once i, same i);
  stamps = λ i. ground (arith, c.stamps i);
}
  where
    same : SameConfirmed db.bookings (b ∷ db.bookings)
    same = SameConfirmed-insert b db.bookings p fresh

create_pending_tx-IsConsistent :
    (b : Booking) (seat_ids : List ℕ) (db : Db) (a : Booking) (db' : Db)
    → is_confirmed b.status ≡ false
    → b.confirmed_at ≡ none
    → IsConsistent db
    → create_pending_tx b seat_ids db ≡ ok (a, db')
    → IsConsistent db'
unfolding create_pending_tx
create_pending_tx-IsConsistent b seat_ids db a db' p at c h =
    elim (Result-cases (copy_rows b.id b.event_id db.seats seat_ids db.booking_seats)) [
      | inl (rows, e) ↦
          subst IsConsistent {x = record db { bookings = b ∷ db.bookings; booking_seats = rows }}
            (ground arith) (insert_pending-IsConsistent b seat_ids db rows p at (ground arith) e c)
      | inr (x, e) ↦ absurd (ground arith)
    ]

pub create_pending-IsConsistent :
    (id now user_id event_id : ℕ) (seat_ids : List ℕ) (total_amount : ℕ) (lock_token : Text)
    (hold_expires_at : ℕ) (db : Db)
    → IsConsistent db
    → IsConsistent
        (create_pending id now user_id event_id seat_ids total_amount lock_token hold_expires_at
          db).1
unfolding create_pending
create_pending-IsConsistent id now user_id event_id seat_ids total_amount lock_token hold_expires_at
      db c =
    let b = pending_booking id now user_id event_id total_amount lock_token hold_expires_at in
    in_tx-keeps IsConsistent (create_pending_tx b seat_ids) db c
      (λ a db' e. create_pending_tx-IsConsistent b seat_ids db a db' refl refl c e)

-- An update under one id that changes neither ids nor what is confirmed, nor the time stamps.
pub update-IsConsistent :
    (i : ℕ) (f : Booking → Booking) (db : Db)
    → ((b : Booking) → (f b).id ≡ b.id)
    → ((b : Booking) → is_confirmed (f b).status ≡ is_confirmed b.status)
    → ((b : Booking) → (f b).confirmed_at ≡ b.confirmed_at)
    → IsConsistent db
    → IsConsistent (record db { bookings = update_booking i f db.bookings })
update-IsConsistent i f db k p at c =
    with_bookings-IsConsistent db _ c (rw (ids-update i f db.bookings k) c.ids_distinct)
      (λ j. rw (find_booking-update i j f db.bookings k) (same j (find_booking j db.bookings)))
      (λ j.
        rw (find_booking-update i j f db.bookings k)
          (stamps j (find_booking j db.bookings) (c.stamps j)))
  where
    same :
        (j : ℕ) (o : Option Booking) → confirmed_status (map_if (i == j) f o) ≡ confirmed_status o
    same j none = refl
    same j (some b) = ground (arith, p b)

    stamps : (j : ℕ) (o : Option Booking) → stamped o ≡ true → stamped (map_if (i == j) f o) ≡ true
    stamps j none h = h
    stamps j (some b) h = ground (arith, p b, at b)

pub mark_cancelled-IsConsistent :
    (id : ℕ) (db : Db) → IsConsistent db → IsConsistent (mark_cancelled id db).1
unfolding mark_cancelled
mark_cancelled-IsConsistent id db c =
    update-IsConsistent id cancel_pending db (λ b. ground arith) (λ b. ground arith)
      (λ b. ground arith) c
