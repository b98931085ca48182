-- ===== src/Db.antt =====
-- The tables of backend/migrations/000001_init.up.sql that the booking path reads and writes.
-- A table is the list of its rows, whose
-- order means nothing; a transaction is one step (InTx commits all of it or nothing).
pub mod Rows
use seatsync.Prelude.{ℕ, Bool, List}
use seatsync.Models.{Venue, Event, Seat, Booking, Payment}

pub record BookingSeat : Type 0 where
  pub booking_id : ℕ
  pub seat_id : ℕ
  pub event_id : ℕ
  pub confirmed : Bool

pub record Db : Type 0 where
  pub users : List ℕ
  pub venues : List Venue
  pub events : List Event
  pub seats : List Seat
  pub bookings : List Booking
  pub booking_seats : List BookingSeat
  pub payments : List Payment
