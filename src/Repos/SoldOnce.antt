-- ===== src/Repos/SoldOnce.antt =====
-- The pass of `UPDATE booking_seats SET confirmed = true` over the table (`Confirm` in
-- backend/internal/repos/payment.go): what it keeps and what it sets.
use seatsync.Prelude.{
  ℕ, ◌+◌, ◌≤◌, ◌≡◌, true, false, ◌||◌, List, [], ◌∷◌, arith, ◌==◌, All, inl, inr, Bool-cases, ok,
  ok-injective,
}
use seatsync.Db.{BookingSeat}
use seatsync.Db.Rows.{sold, sold_count, sold_iff-count}
use seatsync.Repos.Payment.{confirm_rows}

abbrev SoldOnce : List BookingSeat → List BookingSeat → Type 0
SoldOnce done rs = (e s : ℕ) → sold_count e s done + sold_count e s rs ≤ 1

-- A row that passes the index test may become confirmed.
confirm_row-SoldOnce :
    (done : List BookingSeat) (r : BookingSeat) (rs : List BookingSeat)
    → sold r.event_id r.seat_id done ≡ false
    → sold r.event_id r.seat_id rs ≡ false
    → SoldOnce done (r ∷ rs)
    → SoldOnce (record r { confirmed = true } ∷ done) rs
unfolding sold_count
confirm_row-SoldOnce done r rs hd hr inv e s = ground (
  arith,
  sold_iff-count r.event_id r.seat_id done,
  sold_iff-count r.event_id r.seat_id rs,
  inv e s,
)

skip_row-SoldOnce :
    (done : List BookingSeat) (r : BookingSeat) (rs : List BookingSeat)
    → SoldOnce done (r ∷ rs)
    → SoldOnce (r ∷ done) rs
unfolding sold_count
skip_row-SoldOnce done r rs inv e s = ground (arith, inv e s)

confirm_rows-SoldOnce :
    (i : ℕ) (done rs out : List BookingSeat)
    → SoldOnce done rs
    → confirm_rows i done rs ≡ ok out
    → SoldOnce out []
unfolding confirm_rows sold_count
confirm_rows-SoldOnce i done [] out inv h = rw (ok-injective h) at inv
confirm_rows-SoldOnce i done (r ∷ rs) out inv h = elim (Bool-cases (r.booking_id == i)) [
  | inl hit ↦ elim (Bool-cases (sold r.event_id r.seat_id done || sold r.event_id r.seat_id rs)) [
    | inl taken ↦ ground arith
    | inr free ↦
        confirm_rows-SoldOnce i (record r { confirmed = true } ∷ done) rs out
          (confirm_row-SoldOnce done r rs (ground arith) (ground arith) inv) (ground arith)
  ]
  | inr miss ↦
      confirm_rows-SoldOnce i (r ∷ done) rs out (skip_row-SoldOnce done r rs inv) (ground arith)
]

-- A pass over the table keeps every seat sold at most once.
pub confirm_rows-sold_once :
    (i : ℕ) (rows out : List BookingSeat)
    → ((e s : ℕ) → sold_count e s rows ≤ 1)
    → confirm_rows i [] rows ≡ ok out
    → (e s : ℕ) → sold_count e s out ≤ 1
unfolding sold_count
confirm_rows-sold_once i rows out once h e s =
    ground (arith, confirm_rows-SoldOnce i [] rows out (λ e' s'. ground (arith, once e' s')) h e s)

-- What holds of the rows of the booking once they are confirmed, and of the others as they are,
-- holds of all rows after the pass.
pub confirm_rows-All {ℓ} :
    (Q : BookingSeat → Type ℓ) (i : ℕ) (done rs out : List BookingSeat)
    → All Q done
    → All
        (λ r.
          ((r.booking_id ≡ i) → Q (record r { confirmed = true }))
          × ((r.booking_id == i) ≡ false → Q r))
        rs
    → confirm_rows i done rs ≡ ok out
    → All Q out
unfolding confirm_rows
confirm_rows-All Q i done [] out d a h = rw (ok-injective h) at d
confirm_rows-All Q i done (r ∷ rs) out d a h = elim (Bool-cases (r.booking_id == i)) [
  | inl hit ↦ elim (Bool-cases (sold r.event_id r.seat_id done || sold r.event_id r.seat_id rs)) [
    | inl taken ↦ absurd (ground arith)
    | inr free ↦
        confirm_rows-All Q i (record r { confirmed = true } ∷ done) rs out (a.0.0 (ground arith), d)
          a.1 (ground arith)
  ]
  | inr miss ↦ confirm_rows-All Q i (r ∷ done) rs out (a.0.1 miss, d) a.1 (ground arith)
]

-- A pass sells no seat back.
pub confirm_rows-grows :
    (i : ℕ) (done rs out : List BookingSeat) (e s : ℕ)
    → confirm_rows i done rs ≡ ok out
    → sold_count e s done + sold_count e s rs ≤ sold_count e s out
unfolding confirm_rows sold_count
confirm_rows-grows i done [] out e s h = ground arith
confirm_rows-grows i done (r ∷ rs) out e s h = ground (
  arith,
  confirm_rows-grows i (record r { confirmed = true } ∷ done) rs out e s,
  confirm_rows-grows i (r ∷ done) rs out e s,
)
