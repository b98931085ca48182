-- ===== src/Repos/Expiry.antt =====
-- `ClaimExpired` of backend/internal/repos/booking.go: the sweep's statement and the grouping of
-- its rows.
use seatsync.Prelude.{
  ℕ, Bool, not, ◌&&◌, List, [], ◌∷◌, ◌++◌, map, leb, ◌==◌, if◌then◌else◌, keep, take, contains,
}
use seatsync.Models.{Booking, expired, is_pending}
use seatsync.Db.{Db, BookingSeat}

pub record ExpiredBooking : Type 0 where
  pub booking_id : ℕ
  pub event_id : ℕ
  pub seat_ids : List ℕ

-- One row of the statement's answer.
pub record ExpiredRow : Type 0 where
  pub booking_id : ℕ
  pub event_id : ℕ
  pub seat_id : ℕ

-- `status = 'pending' AND hold_expires_at <= now()`, and no other transaction has locked the row.
abbrev pub lapsed : ℕ → (ℕ → Bool) → Booking → Bool
lapsed now locked b = is_pending b.status && (leb b.hold_expires_at now && not (locked b.id))

-- `ORDER BY` a number.
unfoldable pub insert_by : (Booking → ℕ) → Booking → List Booking → List Booking
insert_by key b [] = b ∷ []
insert_by key b (c ∷ cs) = if leb (key b) (key c) then b ∷ c ∷ cs else c ∷ insert_by key b cs

unfoldable pub sort_by : (Booking → ℕ) → List Booking → List Booking
unfolding insert_by
sort_by key [] = []
sort_by key (b ∷ bs) = insert_by key b (sort_by key bs)

unfoldable pub claimed_ids : ℕ → (ℕ → Bool) → ℕ → List Booking → List ℕ
unfolding sort_by
claimed_ids limit locked now bs =
    map (λ b. b.id) (take limit (sort_by (λ b. b.hold_expires_at) (keep (lapsed now locked) bs)))

abbrev pub expire : Booking → Booking
expire b = record b { status = expired }

unfoldable pub expire_rows : List ℕ → List Booking → List Booking
expire_rows ids [] = []
expire_rows ids (b ∷ bs) = (if contains ids b.id then expire b else b) ∷ expire_rows ids bs

abbrev pub row_for : Booking → BookingSeat → ExpiredRow
row_for b r = record { booking_id = b.id; event_id = b.event_id; seat_id = r.seat_id }

unfoldable pub join_seats : List Booking → List BookingSeat → List ExpiredRow
join_seats [] rows = []
join_seats (b ∷ bs) rows =
    map (row_for b) (keep (λ r. r.booking_id == b.id) rows) ++ join_seats bs rows

abbrev pub new_group : ExpiredRow → ExpiredBooking
new_group r = record { booking_id = r.booking_id; event_id = r.event_id; seat_ids = r.seat_id ∷ [] }

abbrev pub add_seat : ExpiredBooking → ExpiredRow → ExpiredBooking
add_seat g r = record g { seat_ids = g.seat_ids ++ r.seat_id ∷ [] }

-- The loop over the rows; `current` is the last group.
unfoldable pub group_from : ExpiredBooking → List ExpiredRow → List ExpiredBooking
group_from current [] = current ∷ []
group_from current (r ∷ rs) =
    let same = group_from (add_seat current r) rs in
    let other = current ∷ group_from (new_group r) rs in
    if current.booking_id == r.booking_id then same else other

unfoldable pub group_rows : List ExpiredRow → List ExpiredBooking
unfolding group_from
group_rows [] = []
group_rows (r ∷ rs) = group_from (new_group r) rs

unfoldable pub claim_expired : ℕ → (ℕ → Bool) → ℕ → Db → List ExpiredBooking × Db
unfolding claimed_ids expire_rows join_seats group_rows sort_by
claim_expired limit locked now db =
    let ids = claimed_ids limit locked now db.bookings in
    let claimed = keep (λ b. contains ids b.id) db.bookings in
    (
      group_rows (join_seats (sort_by (λ b. b.id) claimed) db.booking_seats),
      record db { bookings = expire_rows ids db.bookings },
    )
