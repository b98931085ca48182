-- ===== src/Repos/Groups.antt =====
-- The grouping of the sweep's rows in backend/internal/repos/booking.go.
use mathlib.Core.List.{append_assoc}
use seatsync.Prelude.{
  ℕ, ◌≡◌, ◌≢◌, refl, sym, ap, List, [], ◌∷◌, ◌++◌, map, ◌∙◌, All, arith, ◌==◌, Bool-cases, inl, inr,
}
use seatsync.Models.{Booking}
use seatsync.Db.{BookingSeat}
use seatsync.Repos.Expiry.{
  ExpiredBooking, ExpiredRow, row_for, join_seats, new_group, add_seat, group_from, group_rows,
}

-- The rows that a group stands for.
unfoldable pub with_booking : ℕ → ℕ → List ℕ → List ExpiredRow
with_booking i e [] = []
with_booking i e (s ∷ ss) =
    record { booking_id = i; event_id = e; seat_id = s } ∷ with_booking i e ss

unfoldable pub ungroup : List ExpiredBooking → List ExpiredRow
ungroup [] = []
ungroup (g ∷ gs) = with_booking g.booking_id g.event_id g.seat_ids ++ ungroup gs

-- Rows of one booking are of one event, as the join gives them.
abbrev pub EventsAgree : (ℕ → ℕ) → List ExpiredRow → Type 0
EventsAgree event_of rows = All (λ r. r.event_id ≡ event_of r.booking_id) rows

-- Neighbours are of different bookings.
abbrev pub Apart : List ExpiredBooking → Type 0
Apart [] = Unit
Apart (g ∷ []) = Unit
Apart (g ∷ h ∷ gs) = (g.booking_id ≢ h.booking_id) × Apart (h ∷ gs)

EventsAgree-append :
    (event_of : ℕ → ℕ) (xs ys : List ExpiredRow)
    → EventsAgree event_of xs
    → EventsAgree event_of ys
    → EventsAgree event_of (xs ++ ys)
EventsAgree-append event_of [] ys a b = b
EventsAgree-append event_of (x ∷ xs) ys (a, rest) b = (a, EventsAgree-append event_of xs ys rest b)

row_for-EventsAgree :
    (event_of : ℕ → ℕ) (b : Booking) (rows : List BookingSeat)
    → b.event_id ≡ event_of b.id
    → EventsAgree event_of (map (row_for b) rows)
row_for-EventsAgree event_of b [] h = tt
row_for-EventsAgree event_of b (r ∷ rows) h = (h, row_for-EventsAgree event_of b rows h)

-- The rows of the statement agree if the bookings that it joins do, as with distinct ids.
pub join_seats-EventsAgree :
    (event_of : ℕ → ℕ) (bs : List Booking) (rows : List BookingSeat)
    → All (λ b. b.event_id ≡ event_of b.id) bs
    → EventsAgree event_of (join_seats bs rows)
unfolding join_seats
join_seats-EventsAgree event_of [] rows h = tt
join_seats-EventsAgree event_of (b ∷ bs) rows (h, hs) =
    EventsAgree-append event_of (map (row_for b) _) (join_seats bs rows)
      (row_for-EventsAgree event_of b _ h) (join_seats-EventsAgree event_of bs rows hs)

with_booking-append :
    (i e : ℕ) (xs ys : List ℕ)
    → with_booking i e (xs ++ ys) ≡ with_booking i e xs ++ with_booking i e ys
unfolding with_booking
with_booking-append i e [] ys = refl
with_booking-append i e (x ∷ xs) ys =
    ap (λ t. record { booking_id = i; event_id = e; seat_id = x } ∷ t)
      (with_booking-append i e xs ys)

ungroup-group_from :
    (event_of : ℕ → ℕ) (g : ExpiredBooking) (rs : List ExpiredRow)
    → g.event_id ≡ event_of g.booking_id
    → EventsAgree event_of rs
    → ungroup (group_from g rs) ≡ with_booking g.booking_id g.event_id g.seat_ids ++ rs
unfolding group_from ungroup with_booking
ungroup-group_from event_of g [] own agree = refl
ungroup-group_from event_of g (r ∷ rs) own (a, agree) =
    elim (Bool-cases (g.booking_id == r.booking_id)) [
      | inl same ↦
          let e : g.booking_id ≡ r.booking_id = ground arith in
          let f : g.event_id ≡ r.event_id = own ∙ ap event_of e ∙ sym a in
          rw same (
            ungroup-group_from event_of (add_seat g r) rs own agree
            ∙ ap (λ t. t ++ rs)
                (with_booking-append g.booking_id g.event_id g.seat_ids (r.seat_id ∷ []))
            ∙ append_assoc (with_booking g.booking_id g.event_id g.seat_ids)
                (with_booking g.booking_id g.event_id (r.seat_id ∷ [])) rs
            ∙ ap
                (λ (i : ℕ).
                  with_booking g.booking_id g.event_id g.seat_ids
                  ++ record { booking_id = i; event_id = g.event_id; seat_id = r.seat_id } ∷ rs)
                e
            ∙ ap
                (λ (i : ℕ).
                  with_booking g.booking_id g.event_id g.seat_ids
                  ++ record { booking_id = r.booking_id; event_id = i; seat_id = r.seat_id } ∷ rs)
                f)
      | inr other ↦ rw other (
          ap (λ t. with_booking g.booking_id g.event_id g.seat_ids ++ t)
            (ungroup-group_from event_of (new_group r) rs a agree))
    ]

-- The first group is of this booking.
abbrev Starts : ℕ → List ExpiredBooking → Type 0
Starts i [] = Unit
Starts i (g ∷ gs) = g.booking_id ≡ i

group_from-Starts :
    (g : ExpiredBooking) (rs : List ExpiredRow) → Starts g.booking_id (group_from g rs)
unfolding group_from
group_from-Starts g [] = refl
group_from-Starts g (r ∷ rs) = elim (Bool-cases (g.booking_id == r.booking_id)) [
  | inl same ↦ rw same (group_from-Starts (add_seat g r) rs)
  | inr other ↦ rw other refl
]

Apart-cons :
    (g : ExpiredBooking) (i : ℕ) (gs : List ExpiredBooking)
    → g.booking_id ≢ i
    → Starts i gs
    → Apart gs
    → Apart (g ∷ gs)
Apart-cons g i [] d s a = tt
Apart-cons g i (h ∷ gs) d s a = (λ e. d (e ∙ s), a)

group_from-Apart : (g : ExpiredBooking) (rs : List ExpiredRow) → Apart (group_from g rs)
unfolding group_from
group_from-Apart g [] = tt
group_from-Apart g (r ∷ rs) = elim (Bool-cases (g.booking_id == r.booking_id)) [
  | inl same ↦ rw same (group_from-Apart (add_seat g r) rs)
  | inr other ↦ rw other (
      Apart-cons g r.booking_id (group_from (new_group r) rs) (λ e. ground arith)
        (group_from-Starts (new_group r) rs) (group_from-Apart (new_group r) rs))
]

-- Grouping loses no row, makes none up and keeps their order, if rows of one booking are of one
-- event: written out again, the groups are the rows, each with its booking, event and seat.
-- Neighbouring groups are of different bookings, so rows that are sorted by booking give each
-- booking one group.
pub ungroup-group_rows :
    (event_of : ℕ → ℕ) (rows : List ExpiredRow)
    → EventsAgree event_of rows
    → (ungroup (group_rows rows) ≡ rows) × Apart (group_rows rows)
unfolding group_rows ungroup with_booking
ungroup-group_rows event_of [] agree = (refl, tt)
ungroup-group_rows event_of (r ∷ rs) (a, agree) =
    (ungroup-group_from event_of (new_group r) rs a agree, group_from-Apart (new_group r) rs)
