-- ===== src/Locks/Held.antt =====
-- What `HeldSeats` of backend/internal/locks/locks.go reports: only seats with a live lock.
use seatsync.Prelude.{ℕ, ◌≡◌, some, List, [], ◌∷◌, ◌++◌, Text, All, Option-cases, inl, inr}
use seatsync.Models.{SeatHold}
use seatsync.Locks.Uuids.{UuidCodec}
use seatsync.Locks.Keys.{parse_lock_value, lock_prefix}
use seatsync.Locks.Redis.{Redis}
use seatsync.Locks.Scripts.{held_entries, held_script}
use seatsync.Locks.Manager.{seat_holds, held_seats}

module _ (U : UuidCodec) (R : Redis) (now event_id : ℕ) where
  -- A hold is backed: the key of its seat has a value at this time, and that value names the user.
  abbrev pub Backed : R.Store → ℕ × SeatHold → Type 0
  Backed s (seat_id, hold) =
      (seat value token : Text) × (U.parse seat ≡ some seat_id)
      × (R.get now (lock_prefix U event_id ++ seat) s ≡ some value)
      × (parse_lock_value U value ≡ some (hold.user_id, token))

  held_entries-Backed :
      (ms : List (Text × ℕ)) (s : R.Store)
      → All (Backed s) (seat_holds U (held_entries R now (lock_prefix U event_id) ms s))
  unfolding held_entries seat_holds
  held_entries-Backed [] s = tt
  held_entries-Backed ((seat, expires_at) ∷ ms) s =
      elim (Option-cases (R.get now (lock_prefix U event_id ++ seat) s)) [
        | inl gone ↦ rw gone (held_entries-Backed ms s)
        | inr (value, here) ↦ elim (Option-cases (U.parse seat)) [
          | inl bad ↦ rw (here, bad) (held_entries-Backed ms s)
          | inr (seat_id, good) ↦ elim (Option-cases (parse_lock_value U value)) [
            | inl unread ↦ rw (here, good, unread) (held_entries-Backed ms s)
            | inr ((user_id, token), read) ↦
                rw (here, good, read)
                  ((seat, value, token, good, here, read), held_entries-Backed ms s)
          ]
        ]
      ]

  -- Every hold that is reported has a live lock: in the store that the call leaves, the key of its
  -- seat has a value, and that value names the hold's user. Whatever the sorted set says, a seat
  -- whose lock has lapsed is not shown as held.
  pub held_seats-Backed :
      (clock : ℕ) (s : R.Store)
      → All (Backed (held_seats U R clock now event_id s).1) (held_seats U R clock now event_id s).0
  unfolding held_seats held_script
  held_seats-Backed clock s = held_entries-Backed _ _
