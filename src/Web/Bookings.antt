-- ===== src/Web/Bookings.antt =====
-- The handlers of backend/internal/handlers/holds.go, payments.go and events.go.
use seatsync.Prelude.{ℕ, Option, none, some, List, codes}
use seatsync.Models.{BookingDetail, EventWithVenue, SeatMap}
use seatsync.Locks.Uuids.{UuidCodec}
use seatsync.Services.World.{SeatLocker, World, Schedule, Service, ◌>>=◌, lift}
use seatsync.Services.Holds.{HoldResult, create_hold, release_hold}
use seatsync.Services.Payments.{PayResult, pay}
use seatsync.Services.Catalog.{seat_map}
use seatsync.Services.Reads.{get_booking, get_event, list_bookings, list_events}
use seatsync.Web.Http.{Handler, write_error, write_json, write_no_content, set_header, must_user_id}
use seatsync.Web.Decode.{JsonBody, decode_json, uuid_param, answering}

-- What the handlers write as JSON.
pub data Page : Type 0 where
  hold_page : HoldResult → Page
  booking_page : BookingDetail → Page
  bookings_page : List BookingDetail → Page
  payment_page : PayResult → Page
  events_page : List EventWithVenue → Page
  event_page : EventWithVenue → Page
  seat_map_page : SeatMap → Page

-- `UserIDFrom`, with uuid.Nil for an anonymous caller.
abbrev pub viewer_of : Option ℕ → ℕ
viewer_of none = 0
viewer_of (some user_id) = user_id

module _ (L : SeatLocker) (env : Schedule L) (U : UuidCodec) where
  unfoldable pub hold_create : ℕ → JsonBody (List ℕ) → Handler (World L) Page
  hold_create max_seats body r hs w =
      let work : Service (World L) HoldResult = do
        user_id ← lift (must_user_id r)
        event_id ← lift (uuid_param U r (codes "id"))
        seat_ids ← lift (decode_json body)
        create_hold L env max_seats user_id event_id seat_ids
      in answering (write_error hs) (λ x. write_json hs 201 (hold_page x)) (work w)

  unfoldable pub hold_release : Handler (World L) Page
  hold_release r hs w =
      let work : Service (World L) (Unit {0}) = do
        user_id ← lift (must_user_id r)
        booking_id ← lift (uuid_param U r (codes "booking_id"))
        release_hold L env user_id booking_id
      in answering (write_error hs) (λ x. write_no_content hs) (work w)

  unfoldable pub hold_list : Handler (World L) Page
  hold_list r hs w =
      let work : Service (World L) (List BookingDetail) = do
        user_id ← lift (must_user_id r)
        list_bookings L env user_id
      in answering (write_error hs) (λ x. write_json hs 200 (bookings_page x)) (work w)

  unfoldable pub hold_get : Handler (World L) Page
  hold_get r hs w =
      let work : Service (World L) BookingDetail = do
        user_id ← lift (must_user_id r)
        booking_id ← lift (uuid_param U r (codes "booking_id"))
        get_booking L env user_id booking_id
      in answering (write_error hs) (λ x. write_json hs 200 (booking_page x)) (work w)

  unfoldable pub payment_pay : Handler (World L) Page
  payment_pay r hs w =
      let work : Service (World L) PayResult = do
        user_id ← lift (must_user_id r)
        booking_id ← lift (uuid_param U r (codes "booking_id"))
        pay L env user_id booking_id (r.header (codes "Idempotency-Key"))
      in answering (write_error hs) (λ x. write_json hs 200 (payment_page x)) (work w)

  unfoldable pub event_list : Handler (World L) Page
  event_list r hs w =
      answering (write_error hs) (λ x. write_json hs 200 (events_page x)) (list_events L env w)

  unfoldable pub event_get : Handler (World L) Page
  event_get r hs w =
      let work : Service (World L) EventWithVenue = do
        event_id ← lift (uuid_param U r (codes "id"))
        get_event L env event_id
      in answering (write_error hs) (λ x. write_json hs 200 (event_page x)) (work w)

  unfoldable pub event_seat_map : Handler (World L) Page
  event_seat_map r hs w =
      let work : Service (World L) SeatMap = do
        event_id ← lift (uuid_param U r (codes "id"))
        seat_map L env event_id (viewer_of r.user_id)
      in answering (write_error hs)
        (λ x.
          write_json (set_header (codes "Cache-Control") (codes "no-store") hs) 200
            (seat_map_page x))
        (work w)
