-- ===== src/Services/Holds.antt =====
-- `HoldService` of backend/internal/services/holds.go.
use seatsync.Prelude.{
  codes, ℕ, ◌+◌, ◌%◌, Option, none, some, List, [], ◌∷◌, map, Text, Result, ok, err, ltb, ◌==◌,
  length,
}
use seatsync.Models.{
  Event, Seat, Booking, BookingStatus, pending, confirmed, cancelled, expired, BookedSeat,
  SeatStatus, available, held, SeatUpdate,
}
use seatsync.Models.Price.{i64_mod, price}
use seatsync.Httpx.{
  ApiError, validation, not_found, conflict, internal, with_details, code_conflict,
  code_seats_taken, unavailable_seat_ids,
}
use seatsync.Repos.{Error}
use seatsync.Repos
use seatsync.Repos.Booking.{create_pending, get_by_id, seat_ids_for, mark_cancelled}
use seatsync.Repos.Event.{get_event, seats_by_ids, confirmed_seat_ids}
use seatsync.Services.Selection.{validate_seat_selection, intersect}
use seatsync.Services.World.{
  SeatLocker, World, Schedule, Service, ◌>>=◌, ◌>>◌, lift, ensure, quietly, with_errors, ask,
  attempt, reading, writing, locking, tell, clock_reading, new_token,
}

pub record HoldResult : Type 0 where
  pub booking_id : ℕ
  pub event_id : ℕ
  pub expires_at : ℕ
  pub total_amount : ℕ
  pub seats : List BookedSeat

-- A missing record is a 404 with the message, any other error a 500.
abbrev pub missing_as : ApiError → Error → ApiError
missing_as e Repos.Error.not_found = e
missing_as e _ = internal

abbrev pub event_not_found : ApiError
event_not_found = not_found (codes "Event not found.")

abbrev pub booking_not_found : ApiError
booking_not_found = not_found (codes "Booking not found.")

abbrev pub event_started : ApiError
event_started = conflict code_conflict (codes "This event has already started.")

abbrev pub foreign_seats : ApiError
foreign_seats = validation (codes "One or more of those seats do not belong to this event.")

abbrev pub already_paid_for : ApiError
already_paid_for =
    conflict code_conflict (codes "This booking has already been paid for and cannot be released.")

-- `seatsUnavailableError`
abbrev pub seats_sold : List ℕ → ApiError
seats_sold ids =
    with_details (conflict code_seats_taken (codes "Some of those seats have already been sold."))
      (unavailable_seat_ids ids)

abbrev pub seats_held : List ℕ → ApiError
seats_held ids =
    with_details
      (conflict code_seats_taken (codes "Some of those seats are already held by someone else."))
      (unavailable_seat_ids ids)

abbrev pub none_taken : List ℕ → Result ApiError (Unit {0})
none_taken [] = ok tt
none_taken (s ∷ ss) = err (seats_sold (s ∷ ss))

abbrev pub booked_seat : ℕ → Seat → BookedSeat
booked_seat base_price s = record {
  seat_id = s.id;
  section = s.section;
  row = s.row;
  number = s.number;
  price = price s.price_multiplier_bp base_price;
}

-- The sum of the prices, on 64 bits.
unfoldable pub sum_prices : ℕ → List Seat → ℕ → ℕ
sum_prices base_price [] total = total
sum_prices base_price (s ∷ ss) total =
    sum_prices base_price ss ((total + price s.price_multiplier_bp base_price) % i64_mod)

unfoldable pub seat_updates : SeatStatus → List ℕ → List SeatUpdate
seat_updates status = map λ id. record { seat_id = id; status = status }

module _ (L : SeatLocker) where
  abbrev lock_result : Result L.Failure ℕ → Result ApiError ℕ
  lock_result (ok expires_at) = ok expires_at
  lock_result (err f) = elim (L.unavailable f) [
    | none ↦ err internal
    | some ids ↦ err (seats_held ids)
  ]

  module _ (env : Schedule L) where
    unfoldable pub broadcast : ℕ → List ℕ → SeatStatus → Service (World L) (Unit {0})
    broadcast event_id seat_ids status =
        tell L (record { event_id = event_id; updates = seat_updates status seat_ids })

    unfoldable pub release_locks : ℕ → ℕ → Text → List ℕ → Service (World L) (Unit {0})
    release_locks event_id user_id lock_token seat_ids =
        quietly (ask L env (locking L (λ m. L.release m.now event_id user_id lock_token seat_ids)))

    -- The end of `CreateHold`, by what became of the insert.
    unfoldable pub after_insert :
        ℕ
        → ℕ
        → Text
        → List ℕ
        → ℕ
        → ℕ
        → List BookedSeat
        → Option (Result Error Booking)
        → Service (World L) HoldResult
    after_insert user_id event_id lock_token seat_ids expires_at total seats (some (ok booking)) =
        do
          broadcast event_id seat_ids held
          lift (
              ok (record {
                booking_id = booking.id;
                event_id = event_id;
                expires_at = expires_at;
                total_amount = total;
                seats = seats;
              }))
    after_insert user_id event_id lock_token seat_ids expires_at total seats (some (err e)) = do
      release_locks event_id user_id lock_token seat_ids
      lift (err internal)
    after_insert user_id event_id lock_token seat_ids expires_at total seats none = do
      release_locks event_id user_id lock_token seat_ids
      lift (err internal)

    -- `CreateHold` from the lock on.
    unfoldable pub lock_and_book : ℕ → ℕ → Event → List ℕ → List Seat → Service (World L) HoldResult
    lock_and_book user_id event_id event seat_ids seats = do
      lock_token ← new_token L env
      reply ←
          ask L env (locking L (λ m. L.acquire m.clock m.now event_id user_id lock_token seat_ids))
      expires_at ← lift (lock_result reply)
      let total = sum_prices event.base_price seats 0
      outcome ← attempt L env (
          writing L (λ m.
            create_pending m.fresh_id m.now user_id event_id seat_ids total lock_token expires_at))
      after_insert user_id event_id lock_token seat_ids expires_at total
          (map (booked_seat event.base_price) seats) outcome

    unfoldable pub create_hold : ℕ → ℕ → ℕ → List ℕ → Service (World L) HoldResult
    create_hold max_seats user_id event_id requested = do
      seat_ids ← lift (validate_seat_selection max_seats requested)
      found ← ask L env (reading L (get_event event_id))
      event ← lift (with_errors (missing_as event_not_found) found)
      clock ← clock_reading L env
      ensure (ltb clock event.starts_at) event_started
      seats ← ask L env (reading L (seats_by_ids event.venue_id seat_ids))
      ensure (length seats == length seat_ids) foreign_seats
      sold ← ask L env (reading L (confirmed_seat_ids event_id))
      lift (none_taken (intersect seat_ids sold))
      lock_and_book user_id event_id event seat_ids seats

    -- `ReleaseHold` of a booking that is still pending.
    unfoldable pub release_pending : ℕ → ℕ → Booking → Service (World L) (Unit {0})
    release_pending user_id booking_id booking = do
      seat_ids ← ask L env (reading L (seat_ids_for booking_id))
      release_locks booking.event_id user_id booking.lock_token seat_ids
      changed ← ask L env (writing L (λ m. mark_cancelled booking_id))
      broadcast booking.event_id seat_ids available

    unfoldable pub release_by_status :
        BookingStatus → ℕ → ℕ → Booking → Service (World L) (Unit {0})
    release_by_status confirmed user_id booking_id booking = lift (err already_paid_for)
    release_by_status cancelled user_id booking_id booking = lift (ok tt)
    release_by_status expired user_id booking_id booking = lift (ok tt)
    release_by_status pending user_id booking_id booking =
        release_pending user_id booking_id booking

    unfoldable pub release_hold : ℕ → ℕ → Service (World L) (Unit {0})
    release_hold user_id booking_id = do
      found ← ask L env (reading L (get_by_id booking_id))
      booking ← lift (with_errors (missing_as booking_not_found) found)
      ensure (booking.user_id == user_id) booking_not_found
      release_by_status booking.status user_id booking_id booking
