-- ===== src/Services/Requests.antt =====
-- The requests that the services of backend/internal/services serve, one after another, each under
-- its own schedule.
use seatsync.Prelude.{ℕ, List, [], ◌∷◌, Text, All}
use seatsync.Services.World.{SeatLocker, Shared, Schedule}
use seatsync.Services.Keeps.{OthersKeep}
use seatsync.Services.Safety.{Safe, create_hold-Safe, release_hold-Safe}
use seatsync.Services.PaymentSafety.{pay-Safe}
use seatsync.Services.Expiry.{sweep_ticks, sweep_ticks-Safe}
use seatsync.Services.Holds.{create_hold, release_hold}
use seatsync.Services.Payments.{pay}

-- A request of a user, or some ticks of the worker.
pub data Request : Type 0 where
  creates_hold : ℕ → ℕ → ℕ → List ℕ → Request
  releases_hold : ℕ → ℕ → Request
  pays_for : ℕ → ℕ → Text → Request
  sweeps : ℕ → Request

module _ (L : SeatLocker) where
  -- The shared state after a request, whatever it answers.
  unfoldable pub serve : Schedule L → Request → Shared L → Shared L
  serve env (creates_hold max_seats user_id event_id seat_ids) s =
      (create_hold L env max_seats user_id event_id seat_ids
        (record { shared = s; calls = 0 })).1.shared
  serve env (releases_hold user_id booking_id) s =
      (release_hold L env user_id booking_id (record { shared = s; calls = 0 })).1.shared
  serve env (pays_for user_id booking_id key) s =
      (pay L env user_id booking_id key (record { shared = s; calls = 0 })).1.shared
  serve env (sweeps ticks) s = (sweep_ticks L env ticks (record { shared = s; calls = 0 })).1.shared

  unfoldable pub serve_all : List (Schedule L × Request) → Shared L → Shared L
  serve_all [] s = s
  serve_all ((env, r) ∷ rest) s = serve_all rest (serve env r s)

  abbrev pub OthersSafe : Schedule L × Request → Type 0
  OthersSafe (env, r) = OthersKeep L (Safe L) env

  serve-Safe :
      (env : Schedule L) (r : Request) (s : Shared L)
      → OthersKeep L (Safe L) env
      → Safe L s
      → Safe L (serve env r s)
  unfolding serve
  serve-Safe env (creates_hold max_seats user_id event_id seat_ids) s others c =
      (create_hold-Safe L env others max_seats user_id event_id seat_ids).keeps _ c
  serve-Safe env (releases_hold user_id booking_id) s others c =
      (release_hold-Safe L env others user_id booking_id).keeps _ c
  serve-Safe env (pays_for user_id booking_id key) s others c =
      (pay-Safe L env others user_id booking_id key).keeps _ c
  serve-Safe env (sweeps ticks) s others c = (sweep_ticks-Safe L env others ticks).keeps _ c

  -- Holds, releases, payments and sweeps leave consistent tables consistent: no seat of an event is in two
  -- confirmed bookings and no booking is paid twice, for any lock store, whichever calls fail or
  -- lose their answer, and whatever others do to the shared state between two calls, if that keeps
  -- the tables consistent.
  pub serve_all-IsConsistent :
      (requests : List (Schedule L × Request)) (s : Shared L)
      → All OthersSafe requests
      → Safe L s
      → Safe L (serve_all requests s)
  unfolding serve_all
  serve_all-IsConsistent [] s others c = c
  serve_all-IsConsistent ((env, r) ∷ rest) s others c =
      serve_all-IsConsistent rest (serve env r s) others.1 (serve-Safe env r s others.0 c)
