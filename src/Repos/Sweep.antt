-- ===== src/Repos/Sweep.antt =====
-- Which bookings the sweep of backend/internal/repos/booking.go expires.
use seatsync.Prelude.{ℕ, ◌≡◌, Bool, true, ◌⊎◌, Option, none, some, if◌then◌else◌}
use seatsync.Models.{Booking}
use seatsync.Db.{Db}
use seatsync.Db.Rows.{find_booking}
use seatsync.Repos.Expiry.{lapsed, expire, claim_expired}

-- A booking whose hold is over and whose row is free is expired.
abbrev pub expire_lapsed : ℕ → (ℕ → Bool) → Option Booking → Option Booking
expire_lapsed now locked none = none
expire_lapsed now locked (some b) = some (if lapsed now locked b then expire b else b)

module _ (limit : ℕ) (locked : ℕ → Bool) (now : ℕ) (j : ℕ) (db : Db) where
  abbrev after : Db
  after = (claim_expired limit locked now db).1

  -- What becomes of one booking in the sweep.
  abbrev pub Swept : Type 0
  Swept =
      (find_booking j after.bookings ≡ find_booking j db.bookings)
      ⊎ ((b : Booking) × (find_booking j db.bookings ≡ some b)
          × (lapsed now locked b ≡ true)
          × (find_booking j after.bookings ≡ some (expire b)))
