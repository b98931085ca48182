-- ===== src/Services/Purchase/Confirming.antt =====
-- The checkout of backend/internal/services/payments.go from the payment slot on: its answer is so in
-- the tables.
use seatsync.Prelude.{
  ℕ, ◌≡◌, refl, sym, ap, subst, false, Option, none, some, List, [], Text, Result, ok, err,
  if◌then◌else◌,
}
use seatsync.Models.{Booking, Payment}
use seatsync.Httpx.{ApiError, internal}
use seatsync.Db.Rows.{find_booking, find_booking-id}
use seatsync.Repos.{
  api, seat_confirmed, booking_not_pending, idempotency_key_mismatch, not_found, duplicate_key,
  other,
}
use seatsync.Repos.Payment.{Failure, confirm}
use seatsync.Repos.Invariant.{IsConsistent}
use seatsync.Repos.KeepsPaid.{confirm-IsConsistent}
use seatsync.Repos.Answers.{confirm-bought, confirm-settled}
use seatsync.Services.World.{SeatLocker, Shared, Schedule, ChargeResult}
use seatsync.Services.Keeps.{ask-Keeps, lift-Keeps}
use seatsync.Services.Triples.{
  Triple, bind-Triple, ensure-Triple, keeps-Triple, err-Triple, deferring-Triple, ask-Triple,
  attempt-Triple, answer-Triple, choose-Triple, IfHeard,
}
use seatsync.Services.Payments.{
  pay_result, confirming, charging, after_confirm, confirm_purchase, settle, charge_and_settle,
  release_slot, pay_claimed, lock_error,
}
use seatsync.Services.Purchase.{
  Consistent, Standing, Bought, OthersRun, others-Consistent, others-Bought, Settled,
  replay_or_lapsed-Bought, record_decline-Bought, release_locks-Standing, broadcast-Standing,
}

module _ (L : SeatLocker) (booking_id : ℕ) (env : Schedule L)
    (others : OthersRun L booking_id env) where
  -- What the confirming transaction's answer says of the tables.
  abbrev Outcome : Result Failure (Booking × Payment) → Shared L → Type 0
  Outcome (ok (b, payment)) s = (Standing L booking_id) b s
  Outcome (err (o, booking_not_pending)) s = (Settled L booking_id env others) o s
  Outcome (err (o, e)) s = Unit

  confirm-Outcome :
      (payment_id now amount : ℕ) (ref : Text) (verify : Option ApiError) (s s' : Shared L)
      (r : Result Failure (Booking × Payment))
      → IsConsistent s.db
      → (confirm payment_id now booking_id amount ref verify s.db).0 ≡ r
      → s'.db ≡ (confirm payment_id now booking_id amount ref verify s.db).1
      → Outcome r s'
  confirm-Outcome payment_id now amount ref verify s s' r c answer left = go r answer
    where
      safe : IsConsistent s'.db
      safe =
          subst IsConsistent (sym left)
            (confirm-IsConsistent payment_id now booking_id amount ref verify s.db c)

      go :
          (r : Result Failure (Booking × Payment))
          → (confirm payment_id now booking_id amount ref verify s.db).0 ≡ r
          → Outcome r s'
      go (ok (b, payment)) e =
          let k = confirm-bought payment_id now booking_id amount ref verify s.db b payment e in
          (safe, subst (λ d. find_booking booking_id d.bookings ≡ some b) (sym left) k.0, k.1)
      go (err (none, booking_not_pending)) e = safe
      go (err (some b, booking_not_pending)) e = (
        safe,
        subst (λ d. find_booking booking_id d.bookings ≡ some b) (sym left)
            (confirm-settled payment_id now booking_id amount ref verify s.db b e),
      )
      go (err (o, not_found)) e = tt
      go (err (o, duplicate_key)) e = tt
      go (err (o, seat_confirmed)) e = tt
      go (err (o, idempotency_key_mismatch)) e = tt
      go (err (o, api x)) e = tt
      go (err (o, other x)) e = tt

  after_confirm-Bought :
      (b : Booking) (seat_ids : List ℕ) (o : Option (Result Failure (Booking × Payment)))
      → Triple L (IfHeard L env Outcome o) (after_confirm L env b seat_ids o) (Bought L booking_id)
  unfolding after_confirm
  after_confirm-Bought b seat_ids none = err-Triple L _ _ (Bought L booking_id)
  after_confirm-Bought b seat_ids (some (ok (bought, payment))) =
      bind-Triple L _ _ _ (λ u. (Standing L booking_id) bought) _
        (keeps-Triple L ((Standing L booking_id) bought) _
          ((release_locks-Standing L booking_id env others) bought seat_ids))
        λ _.
          bind-Triple L _ _ _ (λ u. (Standing L booking_id) bought) _
            (keeps-Triple L ((Standing L booking_id) bought) _
              ((broadcast-Standing L booking_id env others) bought seat_ids))
            λ _. answer-Triple L _ (pay_result false bought payment) (Bought L booking_id) λ s st.
              (bought, st, find_booking-id booking_id (s.db).bookings bought st.1, refl, refl)
  after_confirm-Bought b seat_ids (some (err (c, booking_not_pending))) =
      (replay_or_lapsed-Bought L booking_id env others) c []
  after_confirm-Bought b seat_ids (some (err (c, seat_confirmed))) =
      err-Triple L _ _ (Bought L booking_id)
  after_confirm-Bought b seat_ids (some (err (c, api e))) = err-Triple L _ _ (Bought L booking_id)
  after_confirm-Bought b seat_ids (some (err (c, _))) = err-Triple L _ _ (Bought L booking_id)

  confirm_purchase-Bought :
      (b : Booking) (seat_ids : List ℕ) (charge : ChargeResult)
      → b.id ≡ booking_id
      → Triple L
          (Consistent L booking_id)
          (confirm_purchase L env b seat_ids charge)
          (Bought L booking_id)
  unfolding confirm_purchase confirming
  confirm_purchase-Bought b seat_ids charge same =
      bind-Triple L _ _ _ (IfHeard L env Outcome) _
        (attempt-Triple L env (Consistent L booking_id) _ Outcome
          (others-Consistent L booking_id env others)
          (λ n s c.
            let m = env n in
            let missing = L.holds_for m.now b.event_id b.user_id b.lock_token seat_ids s.locks in
            let verify = if m.reaches_store then lock_error missing else some internal in
            confirm-Outcome m.fresh_id m.now b.total_amount charge.reference verify s _ _ c
              (ap (λ i. (confirm m.fresh_id m.now i b.total_amount charge.reference verify s.db).0)
                (sym same))
              (ap (λ i. (confirm m.fresh_id m.now i b.total_amount charge.reference verify s.db).1)
                same)))
        (after_confirm-Bought b seat_ids)

  charge_and_settle-Bought :
      (b : Booking) (key : Text)
      → b.id ≡ booking_id
      → Triple L
          (Consistent L booking_id)
          (charge_and_settle L env booking_id b key)
          (Bought L booking_id)
  unfolding charge_and_settle settle charging
  charge_and_settle-Bought b key same =
      bind-Triple L _ _ _ (λ a. (Consistent L booking_id)) _
        (ask-Triple L env (Consistent L booking_id) _ (λ a. (Consistent L booking_id))
          (others-Consistent L booking_id env others) (λ n s c. c))
        λ seat_ids.
          bind-Triple L _ _ _ (λ a. (Consistent L booking_id)) _
            (ask-Triple L env (Consistent L booking_id) _ (λ a. (Consistent L booking_id))
              (others-Consistent L booking_id env others) (λ n s c. c))
            λ missing.
              bind-Triple L _ _ _ (λ a. (Consistent L booking_id)) _
                (keeps-Triple L (Consistent L booking_id) _
                  (lift-Keeps L (Consistent L booking_id) _))
                λ _.
                  bind-Triple L _ _ _ (λ a. (Consistent L booking_id)) _
                    (ask-Triple L env (Consistent L booking_id) _ (λ a. (Consistent L booking_id))
                      (others-Consistent L booking_id env others) (λ n s c. c))
                    λ charge.
                      choose-Triple L (Consistent L booking_id) charge.succeeded _ _
                        (Bought L booking_id) (λ _. confirm_purchase-Bought b seat_ids charge same)
                        (λ _. (record_decline-Bought L booking_id env others) b charge)

  pub pay_claimed-Bought :
      (b : Booking) (key : Text)
      → b.id ≡ booking_id
      → Triple L
          (Consistent L booking_id)
          (pay_claimed L env booking_id b key)
          (Bought L booking_id)
  unfolding pay_claimed release_slot
  pay_claimed-Bought b key same =
      bind-Triple L _ _ _ (λ a. (Consistent L booking_id)) _
        (ask-Triple L env (Consistent L booking_id) _ (λ a. (Consistent L booking_id))
          (others-Consistent L booking_id env others) (λ n s c. c))
        λ acquired.
          bind-Triple L _ _ _ (λ a. (Consistent L booking_id)) _
            (ensure-Triple L (Consistent L booking_id) _ _)
            λ _.
              deferring-Triple L (Consistent L booking_id) _ _ (Bought L booking_id)
                (λ r.
                  ask-Keeps L ((Bought L booking_id) r) env
                    ((others-Bought L booking_id env others) r) _ (λ n s p. p))
                (charge_and_settle-Bought b key same)
