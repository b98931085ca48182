-- ===== src/Tests/LockRuns.antt =====
-- Two users, 1 and 2, and the seats 4, 5 and 6 of event 3: what becomes of their locks.
use seatsync.Prelude.{
  ℕ, ◌<◌, ◌≡◌, refl, ◌&&◌, ◌⊎◌, ◌↔◌, none, some, List, [], ◌∷◌, Text, text_eq, contains, codes,
  Result, ok, err, arith, All, if◌then◌else◌,
}
use seatsync.Locks.Keys.{
  lock_value, parse_lock_value, lock_key, reserved_key, parse_lock_value-lock_value,
  lock_key-injective,
}
use seatsync.Locks.Scripts.{
  Target, holds_value, release_script, acquire_script, take_locks, taken_seats,
}
use seatsync.Locks.Acquire.{has_key, Acquired, Refused, acquire_script-All_or_none}
use seatsync.Locks.Release.{get-release_script}
use seatsync.Locks.Manager.{
  held_seats, LockError, targets, acquire, release, holds_for, reply_result, parse_seat_id_list,
}
use seatsync.Locks.Exclusion.{
  holder, names, Locked, Unheld, holder-acquire, holder-release, holds_for-nil_iff, acquire_twice,
}
use seatsync.Locks.Held.{Backed, held_seats-Backed}
use seatsync.Tests.Stores.{letters, server, Server, empty_server, lookup, set_if_free}

parse_lock_value-lock_value_example :
    parse_lock_value letters (lock_value letters 7 (codes "a:b")) ≡ some (7, codes "a:b")
parse_lock_value-lock_value_example = parse_lock_value-lock_value letters 7 (codes "a:b")

lock_key-injective_example : ◌≡◌ {A = ℕ} 3 3 × ◌≡◌ {A = ℕ} 4 4
lock_key-injective_example = lock_key-injective letters 3 3 4 4 refl

abbrev seat_4 : Target
seat_4 = record { key = codes "lock:4"; seat = codes "4" }

abbrev seat_5 : Target
seat_5 = record { key = codes "lock:5"; seat = codes "5" }

abbrev two_seats : List Target
two_seats = seat_4 ∷ seat_5 ∷ []

abbrev seat_set : Text
seat_set = codes "seats"

second : 0 < 30
second = omega arith

acquire_script-All_or_none_example :
    Acquired server 1000 30 (codes "v") seat_set 31000 second two_seats empty_server
    ⊎ Refused server 1000 30 (codes "v") seat_set 31000 second two_seats empty_server
unfolding has_key text_eq
acquire_script-All_or_none_example =
    acquire_script-All_or_none server 1000 30 (codes "v") seat_set 31000 second two_seats
      empty_server (refl, (refl, tt)) (refl, (refl, tt))

-- The seat 4 has the value of another caller, the seat 5 that of this one.
abbrev both_taken : Server
both_taken = record {
  keys =
      (codes "lock:4", some (codes "other", 9000)) ∷ (codes "lock:5", some (codes "v", 9000)) ∷ [];
  members = [];
}

get-release_script_example :
    lookup 2000
      (codes "lock:5")
      (release_script server 1000 (codes "v") seat_set two_seats 0 both_taken).1.keys
    ≡ (if has_key (codes "lock:5") two_seats
          && holds_value (codes "v") (lookup 1000 (codes "lock:5") both_taken.keys)
        then none
        else lookup 2000 (codes "lock:5") both_taken.keys)
unfolding text_eq
get-release_script_example =
    get-release_script server 1000 (codes "v") seat_set two_seats 0 both_taken 2000 (codes "lock:5")
      (omega arith) refl

abbrev token : Text
token = codes "t"

-- The user 1 locks the seats 4 and 5 at time 1000 for 30 seconds.
abbrev locked : Result LockError ℕ × Server
locked = acquire letters server 30000 1000 1000 3 1 token (4 ∷ 5 ∷ []) empty_server

holder-acquire_example :
    ((exp : ℕ)
      → locked.0 ≡ ok exp
      → (exp ≡ 31000)
        × Unheld letters server 30000 1000 1000 3 1 token (omega arith) (4 ∷ 5 ∷ []) empty_server
        × Locked letters server 30000 1000 1000 3 1 token
            (omega arith)
            (4 ∷ 5 ∷ [])
            empty_server
            locked.1)
    × ((x : LockError) → locked.0 ≡ err x → locked.1 ≡ empty_server)
unfolding contains
holder-acquire_example =
    holder-acquire letters server 30000 1000 1000 3 1 token (omega arith) (4 ∷ 5 ∷ []) empty_server
      (refl, (refl, tt))

-- The user 2 comes for the seats 5 and 6 five seconds later.
acquire_twice_example :
    (x : LockError) × (acquire letters server 30000 6000 6000 3 2 (codes "u") (5 ∷ 6 ∷ []) locked.1
      ≡ (err x, locked.1))
unfolding contains acquire acquire_script take_locks taken_seats targets lock_key lock_value
    reserved_key reply_result parse_seat_id_list lookup set_if_free text_eq
acquire_twice_example =
    acquire_twice letters server 30000 1000 1000 6000 6000 3 1 2 token (codes "u") (4 ∷ 5 ∷ [])
      (5 ∷ 6 ∷ []) 5 empty_server (omega arith) (refl, (refl, tt)) (refl, (refl, tt)) refl refl refl
      (omega arith) (omega arith)

-- The user 2 cannot release what the user 1 has locked.
holder-release_example :
    holder letters server 8000 3 5 (release letters server 7000 3 2 token (5 ∷ []) locked.1).1 ≡ (
      if names letters server 3 (5 ∷ []) 3 5
        && holds_value (lock_value letters 2 token) (holder letters server 7000 3 5 locked.1)
      then none
      else holder letters server 8000 3 5 locked.1)
holder-release_example =
    holder-release letters server 7000 3 2 token (5 ∷ []) locked.1 3 5 8000 (omega arith)

holds_for-nil_iff_example :
    (holds_for letters server 7000 3 1 token (4 ∷ 5 ∷ []) locked.1 ≡ [])
    ↔ All
        (λ x. holder letters server 7000 3 x locked.1 ≡ some (lock_value letters 1 token))
        (4 ∷ 5 ∷ [])
holds_for-nil_iff_example = holds_for-nil_iff letters server 7000 3 1 token (4 ∷ 5 ∷ []) locked.1

-- The seat map's view of the event while the user 1 holds two of its seats.
held_seats-Backed_example :
    All
      (Backed letters server 7000 3 (held_seats letters server 7000 7000 3 locked.1).1)
      (held_seats letters server 7000 7000 3 locked.1).0
held_seats-Backed_example = held_seats-Backed letters server 7000 3 7000 locked.1
