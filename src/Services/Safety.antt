-- ===== src/Services/Safety.antt =====
-- The services of backend/internal/services keep the tables consistent, whatever the schedule.
use seatsync.Prelude.{ℕ, Option, none, some, List, Text, Result, ok, err}
use seatsync.Models.{
  Booking, BookingStatus, pending, confirmed, cancelled, expired, Event, Seat, BookedSeat,
  SeatStatus, available, held,
}
use seatsync.Repos.{Error}
use seatsync.Repos.Invariant.{IsConsistent}
use seatsync.Repos.Keeps.{create_pending-IsConsistent, mark_cancelled-IsConsistent}
use seatsync.Services.World.{SeatLocker, Shared, Schedule, tell}
use seatsync.Services.Keeps.{
  Keeps, OthersKeep, bind-Keeps, lift-Keeps, ensure-Keeps, quietly-Keeps, ask-Keeps, attempt-Keeps,
  new_token-Keeps, clock_reading-Keeps,
}
use seatsync.Services.Holds.{
  broadcast, release_locks, after_insert, lock_and_book, create_hold, release_pending,
  release_by_status, release_hold,
}

module _ (L : SeatLocker) where
  abbrev pub Safe : Shared L → Type 0
  Safe s = IsConsistent s.db

  module _ (env : Schedule L) (others : OthersKeep L Safe env) where
    pub release_locks-Safe :
        (event_id user_id : ℕ) (lock_token : Text) (seat_ids : List ℕ)
        → Keeps L Safe (release_locks L env event_id user_id lock_token seat_ids)
    unfolding release_locks
    release_locks-Safe event_id user_id lock_token seat_ids =
        quietly-Keeps L Safe _ (ask-Keeps L Safe env others _ (λ n s c. c))

    pub broadcast-Safe :
        (event_id : ℕ) (seat_ids : List ℕ) (status : SeatStatus)
        → Keeps L Safe (broadcast L env event_id seat_ids status)
    unfolding broadcast tell
    broadcast-Safe event_id seat_ids status = record { keeps = λ w c. c }

    after_insert-Safe :
        (user_id event_id : ℕ) (lock_token : Text) (seat_ids : List ℕ) (expires_at total : ℕ)
        (seats : List BookedSeat) (o : Option (Result Error Booking))
        → Keeps L Safe
            (after_insert L env user_id event_id lock_token seat_ids expires_at total seats o)
    unfolding after_insert
    after_insert-Safe user_id event_id lock_token seat_ids expires_at total seats (some (ok b)) =
        bind-Keeps L Safe _ _ (broadcast-Safe event_id seat_ids held) (λ u. lift-Keeps L Safe _)
    after_insert-Safe user_id event_id lock_token seat_ids expires_at total seats (some (err e)) =
        bind-Keeps L Safe _ _ (release_locks-Safe event_id user_id lock_token seat_ids)
          (λ u. lift-Keeps L Safe _)
    after_insert-Safe user_id event_id lock_token seat_ids expires_at total seats none =
        bind-Keeps L Safe _ _ (release_locks-Safe event_id user_id lock_token seat_ids)
          (λ u. lift-Keeps L Safe _)

    lock_and_book-Safe :
        (user_id event_id : ℕ) (event : Event) (seat_ids : List ℕ) (seats : List Seat)
        → Keeps L Safe (lock_and_book L env user_id event_id event seat_ids seats)
    unfolding lock_and_book
    lock_and_book-Safe user_id event_id event seat_ids seats =
        bind-Keeps L Safe _ _ (new_token-Keeps L Safe env) λ lock_token.
          bind-Keeps L Safe _ _ (ask-Keeps L Safe env others _ (λ n s c. c)) λ reply.
            bind-Keeps L Safe _ _ (lift-Keeps L Safe _) λ expires_at.
              bind-Keeps L Safe _ _
                (attempt-Keeps L Safe env others _ (λ n s c.
                  create_pending-IsConsistent _ _ user_id event_id seat_ids _ lock_token expires_at
                    s.db c))
                λ outcome.
                  after_insert-Safe user_id event_id lock_token seat_ids expires_at _ _ outcome

    pub create_hold-Safe :
        (max_seats user_id event_id : ℕ) (requested : List ℕ)
        → Keeps L Safe (create_hold L env max_seats user_id event_id requested)
    unfolding create_hold
    create_hold-Safe max_seats user_id event_id requested =
        bind-Keeps L Safe _ _ (lift-Keeps L Safe _) λ seat_ids.
          bind-Keeps L Safe _ _ (ask-Keeps L Safe env others _ (λ n s c. c)) λ found.
            bind-Keeps L Safe _ _ (lift-Keeps L Safe _) λ event.
              bind-Keeps L Safe _ _ (clock_reading-Keeps L Safe env) λ clock.
                bind-Keeps L Safe _ _ (ensure-Keeps L Safe _ _) λ _.
                  bind-Keeps L Safe _ _ (ask-Keeps L Safe env others _ (λ n s c. c)) λ seats.
                    bind-Keeps L Safe _ _ (ensure-Keeps L Safe _ _) λ _.
                      bind-Keeps L Safe _ _ (ask-Keeps L Safe env others _ (λ n s c. c)) λ sold.
                        bind-Keeps L Safe _ _ (lift-Keeps L Safe _)
                          λ _. lock_and_book-Safe user_id event_id event seat_ids seats

    release_by_status-Safe :
        (status : BookingStatus) (user_id booking_id : ℕ) (booking : Booking)
        → Keeps L Safe (release_by_status L env status user_id booking_id booking)
    unfolding release_by_status release_pending
    release_by_status-Safe confirmed user_id booking_id booking = lift-Keeps L Safe _
    release_by_status-Safe cancelled user_id booking_id booking = lift-Keeps L Safe _
    release_by_status-Safe expired user_id booking_id booking = lift-Keeps L Safe _
    release_by_status-Safe pending user_id booking_id booking =
        bind-Keeps L Safe _ _ (ask-Keeps L Safe env others _ (λ n s c. c)) λ seat_ids.
          bind-Keeps L Safe _ _
            (release_locks-Safe booking.event_id user_id booking.lock_token seat_ids)
            λ _.
              bind-Keeps L Safe _ _
                (ask-Keeps L Safe env others _
                  (λ n s c. mark_cancelled-IsConsistent booking_id s.db c))
                λ changed. broadcast-Safe booking.event_id seat_ids available

    pub release_hold-Safe :
        (user_id booking_id : ℕ) → Keeps L Safe (release_hold L env user_id booking_id)
    unfolding release_hold
    release_hold-Safe user_id booking_id =
        bind-Keeps L Safe _ _ (ask-Keeps L Safe env others _ (λ n s c. c)) λ found.
          bind-Keeps L Safe _ _ (lift-Keeps L Safe _) λ booking.
            bind-Keeps L Safe _ _ (ensure-Keeps L Safe _ _)
              λ _. release_by_status-Safe booking.status user_id booking_id booking
