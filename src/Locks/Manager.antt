-- ===== src/Locks/Manager.antt =====
-- `Manager` of backend/internal/locks/locks.go. The application's clock and the Redis server's time
-- are separate arguments, in milliseconds; a call that does not reach the server is not modelled here.
use seatsync.Prelude.{
  ℕ, ◌+◌, ◌/◌, Bool, Option, none, some, List, [], ◌∷◌, codes, Text, Result, ok, err, if◌then◌else◌,
}
use seatsync.Models.{SeatHold}
use seatsync.Locks.Uuids.{UuidCodec}
use seatsync.Locks.Keys.{
  lock_value, parse_lock_value, lock_key, lock_prefix, reserved_key, payment_slot_key,
}
use seatsync.Locks.Redis.{Redis}
use seatsync.Locks.Scripts.{
  Target, AcquireReply, unavailable, contention, HeldEntry, holds_value, acquire_script,
  release_script, held_script,
}

pub data LockError : Type 0 where
  no_seats : LockError
  seats_unavailable : List ℕ → LockError
  script_failed invalid_seat_id : LockError

module _ (U : UuidCodec) where
  unfoldable pub targets : ℕ → List ℕ → List Target
  targets event_id [] = []
  targets event_id (s ∷ ss) =
      record { key = lock_key U event_id s; seat = U.to_text s } ∷ targets event_id ss

  unfoldable pub parse_seat_id_list : List Text → Result LockError (List ℕ)
  parse_seat_id_list [] = ok []
  parse_seat_id_list (x ∷ xs) = elim (U.parse x) [
    | none ↦ err invalid_seat_id
    | some id ↦ elim (parse_seat_id_list xs) [ ok ids ↦ ok (id ∷ ids) | err e ↦ err e ]
  ]

  -- An entry whose seat or lock value does not parse is skipped.
  abbrev pub add_hold : Option ℕ → ℕ → Option (ℕ × Text) → List (ℕ × SeatHold) → List (ℕ × SeatHold)
  add_hold none expires_at value holds = holds
  add_hold (some seat_id) expires_at none holds = holds
  add_hold (some seat_id) expires_at (some (user_id, token)) holds =
      (seat_id, record { user_id = user_id; expires_at = expires_at }) ∷ holds

  unfoldable pub seat_holds : List HeldEntry → List (ℕ × SeatHold)
  seat_holds [] = []
  seat_holds ((seat, expires_at, value) ∷ entries) =
      add_hold (U.parse seat) expires_at (parse_lock_value U value) (seat_holds entries)

  module _ (R : Redis) where
    abbrev acquired : ℕ → Result LockError (List ℕ) → Result LockError ℕ
    acquired expires_at (err e) = err e
    acquired expires_at (ok []) = ok expires_at
    acquired expires_at (ok (x ∷ xs)) = err (seats_unavailable (x ∷ xs))

    unfoldable pub reply_result : ℕ → AcquireReply → Result LockError ℕ
    reply_result expires_at (contention seat) = err script_failed
    reply_result expires_at (unavailable seats) = acquired expires_at (parse_seat_id_list seats)

    -- `ttl` is the manager's, in milliseconds; the script takes it in whole seconds.
    abbrev run_acquire : ℕ → ℕ → ℕ → ℕ → ℕ → Text → List ℕ → R.Store → AcquireReply × R.Store
    run_acquire ttl clock now event_id user_id lock_token seat_ids =
        acquire_script R now (lock_value U user_id lock_token) (ttl / 1000)
          (reserved_key U event_id) (clock + ttl) (targets event_id seat_ids)

    unfoldable pub acquire :
        ℕ → ℕ → ℕ → ℕ → ℕ → Text → List ℕ → R.Store → Result LockError ℕ × R.Store
    unfolding reply_result
    acquire ttl clock now event_id user_id lock_token [] s = (err no_seats, s)
    acquire ttl clock now event_id user_id lock_token (x ∷ xs) s =
        let reply = run_acquire ttl clock now event_id user_id lock_token (x ∷ xs) s in
        (reply_result (clock + ttl) reply.0, reply.1)

    unfoldable pub release : ℕ → ℕ → ℕ → Text → List ℕ → R.Store → ℕ × R.Store
    release now event_id user_id lock_token [] s = (0, s)
    release now event_id user_id lock_token (x ∷ xs) s =
        release_script R now (lock_value U user_id lock_token) (reserved_key U event_id)
          (targets event_id (x ∷ xs)) 0 s

    -- The map of holds, as its assignments in order.
    unfoldable pub held_seats : ℕ → ℕ → ℕ → R.Store → List (ℕ × SeatHold) × R.Store
    unfolding seat_holds
    held_seats clock now event_id s =
        let reply = held_script R now (reserved_key U event_id) clock (lock_prefix U event_id) s in
        (seat_holds reply.0, reply.1)

    -- MGET and the comparison of each value; with no seats the answer is empty as well.
    unfoldable pub holds_for : ℕ → ℕ → ℕ → Text → List ℕ → R.Store → List ℕ
    holds_for now event_id user_id lock_token [] s = []
    holds_for now event_id user_id lock_token (x ∷ xs) s =
        let rest = holds_for now event_id user_id lock_token xs s in
        if holds_value (lock_value U user_id lock_token) (R.get now (lock_key U event_id x) s)
        then rest
        else x ∷ rest

    unfoldable pub acquire_payment_slot : ℕ → ℕ → ℕ → R.Store → Bool × R.Store
    acquire_payment_slot now ttl booking_id s =
        R.set_nx_ex now (payment_slot_key U booking_id) (codes "1") (ttl / 1000) s

    unfoldable pub release_payment_slot : ℕ → ℕ → R.Store → R.Store
    release_payment_slot now booking_id s = R.del now (payment_slot_key U booking_id) s
