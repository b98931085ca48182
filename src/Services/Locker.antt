-- ===== src/Services/Locker.antt =====
-- The lock manager of backend/internal/locks as the services see it: the values that the server's main
-- function passes them.
use seatsync.Prelude.{ℕ, Option, none, some, List}
use seatsync.Locks.Uuids.{UuidCodec}
use seatsync.Locks.Redis.{Redis}
use seatsync.Locks.Manager.{
  LockError, seats_unavailable, acquire, release, holds_for, held_seats, acquire_payment_slot,
  release_payment_slot,
}
use seatsync.Services.World.{SeatLocker}

-- `errors.As` with `*UnavailableError`.
abbrev pub unavailable_seats : LockError → Option (List ℕ)
unavailable_seats (seats_unavailable ids) = some ids
unavailable_seats _ = none

abbrev pub manager_locker : UuidCodec → Redis → ℕ → SeatLocker
manager_locker U R ttl = record {
  Locks = R.Store;
  Failure = LockError;
  unavailable = unavailable_seats;
  acquire = acquire U R ttl;
  release = release U R;
  holds_for = holds_for U R;
  held_seats = held_seats U R;
  acquire_payment_slot = acquire_payment_slot U R;
  release_payment_slot = release_payment_slot U R;
}
