-- ===== src/Services/Expiry.antt =====
-- `ExpiryWorker` of backend/internal/services/expiry.go. Each tick of the worker's timer is one sweep.
use seatsync.Prelude.{ℕ, zero, suc, Option, none, some, List, [], ◌∷◌, ok}
use seatsync.Models.{available}
use seatsync.Repos.Expiry.{ExpiredBooking, claim_expired}
use seatsync.Repos.KeepsPaid.{claim_expired-IsConsistent}
use seatsync.Services.World.{
  SeatLocker, World, Schedule, Service, ◌>>=◌, ◌>>◌, lift, attempt, writing,
}
use seatsync.Services.Holds.{broadcast}
use seatsync.Services.Keeps.{Keeps, OthersKeep, bind-Keeps, lift-Keeps, attempt-Keeps}
use seatsync.Services.Safety.{Safe, broadcast-Safe}

abbrev pub expiry_batch_size : ℕ
expiry_batch_size = 200

module _ (L : SeatLocker) (env : Schedule L) where
  -- One message for each claimed booking.
  unfoldable pub broadcast_all : List ExpiredBooking → Service (World L) (Unit {0})
  broadcast_all [] = lift (ok tt)
  broadcast_all (b ∷ bs) = do broadcast L env b.event_id b.seat_ids available; broadcast_all bs

  -- A failed sweep changes nothing more; the next tick tries again.
  unfoldable pub after_sweep : Option (List ExpiredBooking) → Service (World L) (Unit {0})
  after_sweep none = lift (ok tt)
  after_sweep (some claimed) = broadcast_all claimed

  unfoldable pub sweep_once : Service (World L) (Unit {0})
  sweep_once = do
    claimed ← attempt L env (writing L (λ m. claim_expired expiry_batch_size m.row_locks m.now))
    after_sweep claimed

  -- `Run` for a number of ticks, until its context is done.
  unfoldable pub sweep_ticks : ℕ → Service (World L) (Unit {0})
  sweep_ticks zero = lift (ok tt)
  sweep_ticks (suc n) = do sweep_once; sweep_ticks n

  module _ (others : OthersKeep L (Safe L) env) where
    broadcast_all-Safe : (bs : List ExpiredBooking) → Keeps L (Safe L) (broadcast_all bs)
    unfolding broadcast_all
    broadcast_all-Safe [] = lift-Keeps L (Safe L) _
    broadcast_all-Safe (b ∷ bs) =
        bind-Keeps L (Safe L) _ _ (broadcast-Safe L env others b.event_id b.seat_ids available)
          (λ _. broadcast_all-Safe bs)

    after_sweep-Safe : (o : Option (List ExpiredBooking)) → Keeps L (Safe L) (after_sweep o)
    unfolding after_sweep
    after_sweep-Safe none = lift-Keeps L (Safe L) _
    after_sweep-Safe (some claimed) = broadcast_all-Safe claimed

    sweep_once-Safe : Keeps L (Safe L) sweep_once
    unfolding sweep_once
    sweep_once-Safe =
        bind-Keeps L (Safe L) _ _
          (attempt-Keeps L (Safe L) env others _
            (λ n s c. claim_expired-IsConsistent expiry_batch_size _ _ s.db c))
          after_sweep-Safe

    pub sweep_ticks-Safe : (n : ℕ) → Keeps L (Safe L) (sweep_ticks n)
    unfolding sweep_ticks
    sweep_ticks-Safe zero = lift-Keeps L (Safe L) _
    sweep_ticks-Safe (suc n) = bind-Keeps L (Safe L) _ _ sweep_once-Safe (λ _. sweep_ticks-Safe n)
