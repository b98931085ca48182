-- ===== src/Models.antt =====
-- backend/internal/models/models.go: the domain types and the price of a seat.
-- A UUID is a number, and `uuid.Nil` is 0; a time is a number of milliseconds; an `int64` is the
-- number of its bit pattern.
pub mod Price
use seatsync.Prelude.{ℕ, Bool, Option, List, Text, true, false, codes}

-- `Role` is a string, of which the program uses two.
abbrev pub role_user : Text
role_user = codes "user"

abbrev pub role_admin : Text
role_admin = codes "admin"

pub record User : Type 0 where
  pub id : ℕ
  pub email : Text
  pub password_hash : Text
  pub name : Text
  pub role : Text
  pub created_at : ℕ

pub data BookingStatus : Type 0 where
  pending confirmed cancelled expired : BookingStatus

pub data PaymentStatus : Type 0 where
  succeeded failed : PaymentStatus

pub data SeatStatus : Type 0 where
  available held sold : SeatStatus

pub record Venue : Type 0 where
  pub id : ℕ
  pub name : Text
  pub city : Text

pub record Event : Type 0 where
  pub id : ℕ
  pub venue_id : ℕ
  pub title : Text
  pub description : Text
  pub starts_at : ℕ
  pub base_price : ℕ
  pub created_at : ℕ

pub record Seat : Type 0 where
  pub id : ℕ
  pub venue_id : ℕ
  pub section : Text
  pub row : ℕ
  pub number : ℕ
  pub price_multiplier_bp : ℕ

pub record Booking : Type 0 where
  pub id : ℕ
  pub user_id : ℕ
  pub event_id : ℕ
  pub status : BookingStatus
  pub total_amount : ℕ
  pub idempotency_key : Option Text
  pub lock_token : Text
  pub hold_expires_at : ℕ
  pub created_at : ℕ
  pub confirmed_at : Option ℕ

pub record BookedSeat : Type 0 where
  pub seat_id : ℕ
  pub section : Text
  pub row : ℕ
  pub number : ℕ
  pub price : ℕ

pub record EventWithVenue : Type 0 where
  pub event : Event
  pub venue : Venue
  pub seats_total : ℕ
  pub seats_confirmed : ℕ

pub record BookingDetail : Type 0 where
  pub booking : Booking
  pub event_title : Text
  pub event_starts_at : ℕ
  pub venue_name : Text
  pub seats : List BookedSeat

pub record Payment : Type 0 where
  pub id : ℕ
  pub booking_id : ℕ
  pub status : PaymentStatus
  pub amount : ℕ
  pub provider_ref : Text
  pub created_at : ℕ

pub record SeatHold : Type 0 where
  pub user_id : ℕ
  pub expires_at : ℕ

pub record SeatUpdate : Type 0 where
  pub seat_id : ℕ
  pub status : SeatStatus

pub record SeatMapEntry : Type 0 where
  pub seat_id : ℕ
  pub section : Text
  pub row : ℕ
  pub number : ℕ
  pub price : ℕ
  pub status : SeatStatus
  pub held_by_me : Bool

pub record SeatMap : Type 0 where
  pub event_id : ℕ
  pub seats : List SeatMapEntry
  pub available : ℕ
  pub held : ℕ
  pub confirmed : ℕ

abbrev pub is_pending : BookingStatus → Bool
is_pending pending = true
is_pending _ = false

abbrev pub is_confirmed : BookingStatus → Bool
is_confirmed confirmed = true
is_confirmed _ = false

abbrev pub is_succeeded : PaymentStatus → Bool
is_succeeded succeeded = true
is_succeeded failed = false
