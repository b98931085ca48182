-- ===== src/Services/Reads.antt =====
-- The reads of backend/internal/services/holds.go and catalog.go: a caller's bookings, and events.
use seatsync.Prelude.{ℕ, List, ◌==◌, ok}
use seatsync.Models.{BookingDetail, EventWithVenue}
use seatsync.Repos.Details.{event_by_id, get_detail, all_events, list_for_user}
use seatsync.Services.Holds.{booking_not_found, event_not_found, missing_as}
use seatsync.Services.World.{
  SeatLocker, World, Schedule, Service, ◌>>=◌, ◌>>◌, lift, ensure, with_errors, ask, reading,
}

module _ (L : SeatLocker) (env : Schedule L) where
  unfoldable pub get_booking : ℕ → ℕ → Service (World L) BookingDetail
  get_booking user_id booking_id = do
    found ← ask L env (reading L (get_detail booking_id))
    detail ← lift (with_errors (missing_as booking_not_found) found)
    ensure ((detail.booking).user_id == user_id) booking_not_found
    lift (ok detail)

  unfoldable pub list_bookings : ℕ → Service (World L) (List BookingDetail)
  list_bookings user_id = ask L env (reading L (list_for_user user_id))

  unfoldable pub list_events : Service (World L) (List EventWithVenue)
  list_events = ask L env (λ m s. (all_events m.now s.db, s))

  unfoldable pub get_event : ℕ → Service (World L) EventWithVenue
  get_event id = do
    found ← ask L env (reading L (event_by_id id))
    lift (with_errors (missing_as event_not_found) found)
