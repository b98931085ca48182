-- ===== src/Services/PaymentParts.antt =====
-- The parts of the checkout in backend/internal/services/payments.go that do not charge: what the
-- repositories, the locks and the messages keep, they keep.
use seatsync.Prelude.{
  ◌∷◌, ℕ, Bool, true, false, Option, none, some, List, Text, Result, ok, err, if◌then◌else◌, [],
}
use seatsync.Models.{Booking, Payment, is_confirmed, sold}
use seatsync.Repos.{api, seat_confirmed, booking_not_pending}
use seatsync.Repos.Payment.{Failure}
use seatsync.Services.World.{SeatLocker, World, Schedule, Service, ChargeResult}
use seatsync.Services.Keeps.{
  Keeps, OthersKeep, bind-Keeps, lift-Keeps, ensure-Keeps, ask-Keeps, attempt-Keeps,
}
use seatsync.Services.Payments.{
  PayResult, confirming, replay, replay_or_lapsed, record_decline, after_confirm, confirm_purchase,
}
use seatsync.Httpx.{ApiError}
use seatsync.Models.{SeatStatus}
use seatsync.Repos.Payment.{record_failure, claim_idempotency_key, confirm}
use seatsync.Services.World.{Shared, Broadcast, tell}
use seatsync.Services.Keeps.{quietly-Keeps}
use seatsync.Services.Holds.{release_locks, broadcast}

-- A property of the shared state that locks, messages and the payment's transactions keep.
pub record Closed (L : SeatLocker) (P : Shared L → Type 0) : Type 0 where
  pub locks : (s : Shared L) (l : L.Locks) → P s → P (record s { locks = l })
  pub sends : (s : Shared L) (b : Broadcast) → P s → P (record s { sent = b ∷ s.sent })
  pub failures :
      (id now booking_id amount : ℕ) (ref : Text) (s : Shared L)
      → P s
      → P (record s { db = (record_failure id now booking_id amount ref s.db).1 })
  pub claims :
      (id : ℕ) (key : Text) (s : Shared L)
      → P s
      → P (record s { db = (claim_idempotency_key id key s.db).1 })
  pub confirms :
      (payment_id now id amount : ℕ) (ref : Text) (verify : Option ApiError) (s : Shared L)
      → P s
      → P (record s { db = (confirm payment_id now id amount ref verify s.db).1 })

module _ (L : SeatLocker) (P : Shared L → Type 0) (closed : Closed L P) (env : Schedule L)
    (others : OthersKeep L P env) where
  pub release_locks-Keeps :
      (event_id user_id : ℕ) (lock_token : Text) (seat_ids : List ℕ)
      → Keeps L P (release_locks L env event_id user_id lock_token seat_ids)
  unfolding release_locks
  release_locks-Keeps event_id user_id lock_token seat_ids =
      quietly-Keeps L P _ (ask-Keeps L P env others _ (λ n s c. closed.locks s _ c))

  pub broadcast-Keeps :
      (event_id : ℕ) (seat_ids : List ℕ) (status : SeatStatus)
      → Keeps L P (broadcast L env event_id seat_ids status)
  unfolding broadcast tell
  broadcast-Keeps event_id seat_ids status = record { keeps = λ w c. closed.sends w.shared _ c }

  -- A choice between two services by a test.
  pub choose-Keeps :
      (b : Bool) (m n : Service (World L) PayResult)
      → Keeps L P m
      → Keeps L P n
      → Keeps L P (λ w. if b then m w else n w)
  choose-Keeps true m n km kn = record { keeps = km.keeps }
  choose-Keeps false m n km kn = record { keeps = kn.keeps }

  pub replay-Keeps : (b : Booking) (key : Text) → Keeps L P (replay L env b key)
  unfolding replay
  replay-Keeps b key = bind-Keeps L P _ _ (ensure-Keeps L P _ _) λ _.
      bind-Keeps L P _ _ (ask-Keeps L P env others _ (λ n s c. c))
        λ found. bind-Keeps L P _ _ (lift-Keeps L P _) λ payment. lift-Keeps L P _

  pub replay_or_lapsed-Keeps :
      (o : Option Booking) (key : Text) → Keeps L P (replay_or_lapsed L env o key)
  unfolding replay_or_lapsed
  replay_or_lapsed-Keeps none key = record { keeps = λ w c. c }
  replay_or_lapsed-Keeps (some b) key =
      choose-Keeps (is_confirmed b.status) (replay L env b key) _ (replay-Keeps b key)
        (record { keeps = λ w c. c })

  pub record_decline-Keeps :
      (b : Booking) (charge : ChargeResult) → Keeps L P (record_decline L env b charge)
  unfolding record_decline
  record_decline-Keeps b charge =
      bind-Keeps L P _ _
        (ask-Keeps L P env others _
          (λ n s c. closed.failures _ _ b.id b.total_amount charge.reference s c))
        λ recorded. bind-Keeps L P _ _ (lift-Keeps L P _) λ payment. lift-Keeps L P _

  after_confirm-Keeps :
      (b : Booking) (seat_ids : List ℕ) (o : Option (Result Failure (Booking × Payment)))
      → Keeps L P (after_confirm L env b seat_ids o)
  unfolding after_confirm
  after_confirm-Keeps b seat_ids none = lift-Keeps L P _
  after_confirm-Keeps b seat_ids (some (ok (bought, payment))) =
      bind-Keeps L P _ _
        (release_locks-Keeps bought.event_id bought.user_id bought.lock_token seat_ids)
        λ _.
          bind-Keeps L P _ _ (broadcast-Keeps bought.event_id seat_ids sold) λ _. lift-Keeps L P _
  after_confirm-Keeps b seat_ids (some (err (c, booking_not_pending))) = replay_or_lapsed-Keeps c []
  after_confirm-Keeps b seat_ids (some (err (c, seat_confirmed))) = lift-Keeps L P _
  after_confirm-Keeps b seat_ids (some (err (c, api e))) = lift-Keeps L P _
  after_confirm-Keeps b seat_ids (some (err (c, _))) = lift-Keeps L P _

  pub confirm_purchase-Keeps :
      (b : Booking) (seat_ids : List ℕ) (charge : ChargeResult)
      → Keeps L P (confirm_purchase L env b seat_ids charge)
  unfolding confirm_purchase confirming
  confirm_purchase-Keeps b seat_ids charge =
      bind-Keeps L P _ _
        (attempt-Keeps L P env others _
          (λ n s c. closed.confirms _ _ b.id b.total_amount charge.reference _ s c))
        λ outcome. after_confirm-Keeps b seat_ids outcome
