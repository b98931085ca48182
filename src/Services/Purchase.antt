-- ===== src/Services/Purchase.antt =====
-- What a successful answer of `Pay` in backend/internal/services/payments.go means.
pub mod Confirming
pub mod Answer
use seatsync.Prelude.{
  ℕ, ◌≡◌, refl, sym, ap, subst, ◌∙◌, Bool, true, false, Option, none, some, List, [], Text, Result,
  ok, err, arith, ◌==◌, if◌then◌else◌,
}
use seatsync.Models.{Booking, Payment, is_confirmed, is_pending, sold}
use seatsync.Httpx.{ApiError, internal}
use seatsync.Db.{Db}
use seatsync.Db.Rows.{find_booking, find_booking-id, paid_count}
use seatsync.Repos.{
  Error, api, seat_confirmed, booking_not_pending, idempotency_key_mismatch, not_found,
  duplicate_key, other,
}
use seatsync.Repos.Booking.{get_by_id}
use seatsync.Repos.Payment.{Failure, confirm, claim_idempotency_key}
use seatsync.Repos.Invariant.{IsConsistent}
use seatsync.Repos.KeepsPaid.{
  record_failure-IsConsistent, claim_idempotency_key-IsConsistent, confirm-IsConsistent,
}
use seatsync.Repos.Answers.{
  get_by_id-eq-ok, claim_idempotency_key-id, claim_idempotency_key-settled, confirm-bought,
  confirm-settled,
}
use seatsync.Repos.History.{Transaction, run, run-IsConsistent, find_booking-run}
use seatsync.Services.World.{
  SeatLocker, Shared, World, Schedule, Service, ChargeResult, ask, tell, lift, with_errors,
}
use seatsync.Services.Keeps.{Keeps, OthersKeep, ask-Keeps, quietly-Keeps, lift-Keeps}
use seatsync.Services.Triples.{
  Triple, OnOk, bind-Triple, lift-Triple, ensure-Triple, keeps-Triple, err-Triple, deferring-Triple,
  ask-Triple, attempt-Triple, answer-Triple, choose-Triple, EffectGives, IfHeard,
}
use seatsync.Services.Holds.{missing_as, booking_not_found, release_locks, broadcast}
use seatsync.Services.Payments.{
  PayResult, pay_result, confirming, charging, replay, replay_or_lapsed, record_decline,
  after_confirm, confirm_purchase, settle, charge_and_settle, release_slot, pay_claimed,
  after_claim, pay_open, pay, lock_error,
}

module _ (L : SeatLocker) (booking_id : ℕ) where
  abbrev pub Consistent : Shared L → Type 0
  Consistent s = IsConsistent s.db

  -- This booking is in the tables, and it is confirmed.
  abbrev pub Standing : Booking → Shared L → Type 0
  Standing b s =
      IsConsistent s.db
      × (find_booking booking_id (s.db).bookings ≡ some b)
      × (is_confirmed b.status ≡ true)

  -- What the answer says is so in the tables.
  abbrev pub Bought : PayResult → Shared L → Type 0
  Bought r s =
      (b : Booking) × Standing b s
      × (r.booking_id ≡ booking_id)
      × (r.total_amount ≡ b.total_amount)
      × (r.confirmed_at ≡ b.confirmed_at)

  -- Between two calls the others run transactions.
  abbrev pub OthersRun : Schedule L → Type 0
  OthersRun env =
      (n : ℕ) (s : Shared L) → (ts : List Transaction) × (((env n).before s).db ≡ run ts s.db)

  confirmed_not_pending : (b : Booking) → is_confirmed b.status ≡ true → is_pending b.status ≡ false
  confirmed_not_pending b h = ground arith

  module _ (env : Schedule L) (others : OthersRun env) where
    pub others-Consistent : OthersKeep L Consistent env
    others-Consistent n s c =
        let (ts, e) = others n s in subst IsConsistent (sym e) (run-IsConsistent ts s.db c)

    pub others-Standing : (b : Booking) → OthersKeep L (Standing b) env
    others-Standing b n s (c, found, done) =
        let (ts, e) = others n s in
        (
          others-Consistent n s c,
          subst (λ db. find_booking booking_id db.bookings ≡ some b) (sym e)
              (find_booking-run ts booking_id b s.db c (confirmed_not_pending b done) found),
          done,
        )

    pub others-Bought : (r : PayResult) → OthersKeep L (Bought r) env
    others-Bought r n s (b, st, e₁, e₂, e₃) = (b, others-Standing b n s st, e₁, e₂, e₃)

    pub replay-Bought :
        (b : Booking) (key : Text) → Triple L (Standing b) (replay L env b key) Bought
    unfolding replay
    replay-Bought b key =
        bind-Triple L _ _ _ (λ u. Standing b) _ (ensure-Triple L (Standing b) _ _)
          λ _.
            bind-Triple L _ _ _ (λ a. Standing b) _
              (ask-Triple L env (Standing b) _ (λ a. Standing b) (others-Standing b) (λ n s st. st))
              λ found.
                bind-Triple L _ _ _ (λ a s. (_ ≡ ok a) × Standing b s) _
                  (lift-Triple L (Standing b) _)
                  λ payment. answer-Triple L _ (pay_result true b payment) Bought λ s (e, st).
                    (b, st, find_booking-id booking_id (s.db).bookings b st.1, refl, refl)

    -- What is known of a booking that a transaction handed back as settled.
    abbrev pub Settled : Option Booking → Shared L → Type 0
    Settled none s = IsConsistent s.db
    Settled (some c) s = IsConsistent s.db × (find_booking booking_id (s.db).bookings ≡ some c)

    pub replay_or_lapsed-Bought :
        (o : Option Booking) (key : Text)
        → Triple L (Settled o) (replay_or_lapsed L env o key) Bought
    unfolding replay_or_lapsed
    replay_or_lapsed-Bought none key = record { after = λ w p. tt }
    replay_or_lapsed-Bought (some b) key =
        choose-Triple L _ (is_confirmed b.status) (replay L env b key) _ Bought
          (λ done. record {
            after = λ w (c, found). (replay-Bought b key).after w (c, found, done);
          })
          (λ left. record { after = λ w p. tt })

    pub record_decline-Bought :
        (b : Booking) (charge : ChargeResult)
        → Triple L Consistent (record_decline L env b charge) Bought
    unfolding record_decline
    record_decline-Bought b charge =
        bind-Triple L _ _ _ (λ a. Consistent) _
          (ask-Triple L env Consistent _ (λ a. Consistent) others-Consistent
            (λ n s c. record_failure-IsConsistent _ _ b.id b.total_amount charge.reference s.db c))
          λ recorded.
            bind-Triple L _ _ _ (λ a s. (_ ≡ ok a) × Consistent s) _ (lift-Triple L Consistent _)
              λ payment. err-Triple L _ _ Bought

    pub release_locks-Standing :
        (b : Booking) (seat_ids : List ℕ)
        → Keeps L (Standing b) (release_locks L env b.event_id b.user_id b.lock_token seat_ids)
    unfolding release_locks
    release_locks-Standing b seat_ids =
        quietly-Keeps L (Standing b) _
          (ask-Keeps L (Standing b) env (others-Standing b) _ (λ n s st. st))

    pub broadcast-Standing :
        (b : Booking) (seat_ids : List ℕ)
        → Keeps L (Standing b) (broadcast L env b.event_id seat_ids sold)
    unfolding broadcast tell
    broadcast-Standing b seat_ids = record { keeps = λ w st. st }
