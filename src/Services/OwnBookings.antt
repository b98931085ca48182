-- ===== src/Services/OwnBookings.antt =====
-- What `GetBooking` of backend/internal/services/holds.go answers a caller.
use seatsync.Prelude.{
  ℕ, ◌≡◌, ◌≢◌, ◌<◌, refl, Bool, true, false, some, ok, err, ◌==◌, if◌then◌else◌, arith, ap,
}
use seatsync.Models.{Booking, BookingDetail, Event, Venue}
use seatsync.Httpx.{ApiError}
use seatsync.Db.{Db}
use seatsync.Db.Rows.{find_booking, find_event}
use seatsync.Repos.Details.{find_venue, get_detail}
use seatsync.Repos.DetailSeats.{IsDetail, SeatsExist, get_detail-IsDetail, reserved}
use seatsync.Services.Holds.{booking_not_found}
use seatsync.Services.Reads.{get_booking}
use seatsync.Services.World.{
  SeatLocker, World, Schedule, call, ask, served, lift, ensure, ◌>>=◌, ◌>>◌,
}

guarded :
    {S : Type 0} (c : Bool) (e : ApiError) (d : BookingDetail) (w : S)
    → ((ensure c e >> lift (ok d)) w).0 ≡ (if c then ok d else err e)
unfolding ensure lift ◌>>=◌
guarded true e d w = refl
guarded false e d w = refl

module _ (L : SeatLocker) (env : Schedule L) where
  -- The tables that the next call finds.
  abbrev pub tables_at : World L → Db
  tables_at w = ((env w.calls).before w.shared).db

  get_booking-found :
      (user_id id : ℕ) (w : World L) (d : BookingDetail)
      → (env w.calls).fate ≡ served
      → get_detail id (tables_at w) ≡ ok d
      → (get_booking L env user_id id w).0
        ≡ (if (d.booking).user_id == user_id then ok d else err booking_not_found)
  unfolding get_booking ask call ◌>>=◌ lift ensure
  get_booking-found user_id id w d h g =
      rw h (rw g (guarded ((d.booking).user_id == user_id) booking_not_found d _))

  -- Where the read is served, a caller's own booking that has a seat row, and whose event, venue and
  -- seats exist, is answered with its event and venue and with each seat that its rows name, as
  -- often as they do; to any other caller it is answered as not found.
  pub get_booking-own :
      (user_id id seat : ℕ) (w : World L) (b : Booking) (e : Event) (v : Venue)
      → (env w.calls).fate ≡ served
      → find_booking id (tables_at w).bookings ≡ some b
      → find_event b.event_id (tables_at w).events ≡ some e
      → find_venue e.venue_id (tables_at w).venues ≡ some v
      → SeatsExist b.id (tables_at w)
      → 0 < reserved b.id seat (tables_at w).booking_seats
      → (b.user_id ≡ user_id
          → (d : BookingDetail) × ((get_booking L env user_id id w).0 ≡ ok d)
            × IsDetail b e v (tables_at w) d)
        × (b.user_id ≢ user_id → (get_booking L env user_id id w).0 ≡ err booking_not_found)
  get_booking-own user_id id seat w b e v h fb fe fv exist one =
      let found = get_detail-IsDetail b e v (tables_at w) id seat fb fe fv exist one in
      let answer = get_booking-found user_id id w found.0 h found.1 in
      let owner = ap (λ x. x.user_id) (found.2).booking_is in
      (
        λ own. (found.0, ground (arith, answer, owner, own), found.2),
        λ other. ground (arith, answer, owner, other),
      )
