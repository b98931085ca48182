-- ===== src/Repos/Success.antt =====
-- When the confirming transaction of backend/internal/repos/payment.go succeeds.
use seatsync.Prelude.{
  ℕ, ◌+◌, ◌≤◌, ◌≡◌, refl, true, false, none, some, List, [], ◌∷◌, Text, ok, arith, ◌==◌,
  if◌then◌else◌, Bool-cases, inl, inr,
}
use seatsync.Models.{Booking, succeeded, is_pending}
use seatsync.Db.{Db, BookingSeat}
use seatsync.Db.Rows.{find_booking, sold, sold_count, find_booking-update}
use seatsync.Repos.Payment.{
  has_payment, insert_payment, payment_row, confirm_rows, confirm_booking, confirm_tx, confirm,
}
use seatsync.Repos.Invariant.{IsConsistent}

-- The seat rows with those of one booking confirmed.
abbrev pub mark : ℕ → BookingSeat → BookingSeat
mark i r = if r.booking_id == i then record r { confirmed = true } else r

unfoldable pub marked : ℕ → List BookingSeat → List BookingSeat
marked i [] = []
marked i (r ∷ rs) = mark i r ∷ marked i rs

-- Each seat of an event would be sold at most once if the booking were confirmed.
abbrev pub Sellable : ℕ → List BookingSeat → Type 0
Sellable i rs = (e s : ℕ) → sold_count e s (marked i rs) ≤ 1

sold-none : (e s : ℕ) (rs : List BookingSeat) → sold_count e s rs ≡ 0 → sold e s rs ≡ false
unfolding sold sold_count
sold-none e s [] h = refl
sold-none e s (r ∷ rs) h = ground (arith, sold-none e s rs)

sold_count-marked :
    (i e s : ℕ) (rs : List BookingSeat) → sold_count e s rs ≤ sold_count e s (marked i rs)
unfolding sold_count marked
sold_count-marked i e s [] = omega arith
sold_count-marked i e s (r ∷ rs) = ground (arith, sold_count-marked i e s rs)

confirm_rows-Sellable :
    (i : ℕ) (done rs : List BookingSeat)
    → ((e s : ℕ) → sold_count e s done + sold_count e s (marked i rs) ≤ 1)
    → (rows : List BookingSeat) × (confirm_rows i done rs ≡ ok rows)
unfolding confirm_rows marked sold_count
confirm_rows-Sellable i done [] h = (done, refl)
confirm_rows-Sellable i done (r ∷ rs) h = elim (Bool-cases (r.booking_id == i)) [
  | inl mine ↦
      let here : sold r.event_id r.seat_id done ≡ false =
        sold-none r.event_id r.seat_id done (ground (arith, h r.event_id r.seat_id)) in
      let later : sold r.event_id r.seat_id rs ≡ false =
        sold-none r.event_id r.seat_id rs
          (ground (arith, h r.event_id r.seat_id, sold_count-marked i r.event_id r.seat_id rs)) in
      rw (mine, here, later)
        (confirm_rows-Sellable i (record r { confirmed = true } ∷ done) rs
          (λ e s. ground (arith, h e s)))
  | inr other ↦ rw other (confirm_rows-Sellable i (r ∷ done) rs (λ e s. ground (arith, h e s)))
]

-- The confirming transaction succeeds whenever it may. In consistent tables, for a booking that is found
-- pending, a lock check that reports nothing, a fresh payment id and seats of which none would be
-- sold twice, it returns the booking confirmed at the given time and the successful payment, and
-- the tables then have both.
pub confirm-succeeds :
    (payment_id now id amount : ℕ) (provider_ref : Text) (db : Db) (b : Booking)
    → IsConsistent db
    → find_booking id db.bookings ≡ some b
    → is_pending b.status ≡ true
    → has_payment payment_id db.payments ≡ false
    → Sellable id db.booking_seats
    → let paid = payment_row payment_id now succeeded id amount provider_ref in
      let outcome = confirm payment_id now id amount provider_ref none db in
      (outcome.0 ≡ ok (confirm_booking now b, paid))
      × (find_booking id outcome.1.bookings ≡ some (confirm_booking now b))
      × (outcome.1.payments ≡ paid ∷ db.payments)
unfolding confirm confirm_tx insert_payment payment_row sold_count
confirm-succeeds payment_id now id amount provider_ref db b c here unsettled fresh sellable =
    let (rows, passed) =
      confirm_rows-Sellable id [] db.booking_seats (λ e s. omega (arith, sellable e s)) in
    ground (
      arith,
      find_booking-update id id (confirm_booking now) db.bookings (λ x. refl),
      c.paid_once id,
    )
