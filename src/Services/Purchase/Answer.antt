-- ===== src/Services/Purchase/Answer.antt =====
-- What a successful answer of `Pay` in backend/internal/services/payments.go means: the booking is
-- sold and paid.
use seatsync.Prelude.{
  ℕ, ◌≡◌, refl, sym, subst, none, some, Text, Result, ok, err, ok-injective, arith,
}
use seatsync.Models.{Booking, is_confirmed}
use seatsync.Httpx.{ApiError}
use seatsync.Db.Rows.{find_booking, paid_count}
use seatsync.Repos.{
  Error, api, seat_confirmed, booking_not_pending, idempotency_key_mismatch, not_found,
  duplicate_key, other,
}
use seatsync.Repos.Payment.{Failure, claim_idempotency_key}
use seatsync.Repos.Invariant.{IsConsistent}
use seatsync.Repos.KeepsPaid.{claim_idempotency_key-IsConsistent}
use seatsync.Repos.Answers.{
  get_by_id-eq-ok, claim_idempotency_key-id, claim_idempotency_key-settled,
}
use seatsync.Services.World.{SeatLocker, Shared, World, Schedule, lift, with_errors}
use seatsync.Services.Keeps.{lift-Keeps}
use seatsync.Services.Triples.{
  Triple, OnOk, bind-Triple, ensure-Triple, keeps-Triple, err-Triple, ask-Triple, choose-Triple,
}
use seatsync.Services.Holds.{missing_as, booking_not_found}
use seatsync.Services.Payments.{PayResult, after_claim, pay_open, pay}
use seatsync.Services.Purchase.{
  Consistent, Bought, OthersRun, others-Consistent, replay-Bought, Settled, replay_or_lapsed-Bought,
}
use seatsync.Services.Purchase.Confirming.{pay_claimed-Bought}

module _ (L : SeatLocker) (booking_id : ℕ) (env : Schedule L)
    (others : OthersRun L booking_id env) where
  -- What the claim's answer says of the tables.
  abbrev Claimed : Result Failure Booking → Shared L → Type 0
  Claimed (ok b) s = IsConsistent s.db × (b.id ≡ booking_id)
  Claimed (err (o, booking_not_pending)) s = (Settled L booking_id env others) o s
  Claimed (err (o, e)) s = Unit

  after_claim-Bought :
      (key : Text) (r : Result Failure Booking)
      → Triple L (Claimed r) (after_claim L env booking_id key r) (Bought L booking_id)
  unfolding after_claim
  after_claim-Bought key (ok b) = record {
    after = λ w (c, same). ((pay_claimed-Bought L booking_id env others) b key same).after w c;
  }
  after_claim-Bought key (err (o, booking_not_pending)) =
      (replay_or_lapsed-Bought L booking_id env others) o key
  after_claim-Bought key (err (o, idempotency_key_mismatch)) =
      err-Triple L _ _ (Bought L booking_id)
  after_claim-Bought key (err (o, _)) = err-Triple L _ _ (Bought L booking_id)

  claim-Claimed :
      (key : Text) (s s' : Shared L) (r : Result Failure Booking)
      → IsConsistent s.db
      → (claim_idempotency_key booking_id key s.db).0 ≡ r
      → s'.db ≡ (claim_idempotency_key booking_id key s.db).1
      → Claimed r s'
  claim-Claimed key s s' r c answer left = go r answer
    where
      safe : IsConsistent s'.db
      safe =
          subst IsConsistent (sym left) (claim_idempotency_key-IsConsistent booking_id key s.db c)

      go :
          (r : Result Failure Booking)
          → (claim_idempotency_key booking_id key s.db).0 ≡ r
          → Claimed r s'
      go (ok b) e = (safe, claim_idempotency_key-id booking_id key s.db b e)
      go (err (none, booking_not_pending)) e = safe
      go (err (some b, booking_not_pending)) e = (
        safe,
        subst (λ d. find_booking booking_id d.bookings ≡ some b) (sym left)
            (claim_idempotency_key-settled booking_id key s.db b e),
      )
      go (err (o, not_found)) e = tt
      go (err (o, duplicate_key)) e = tt
      go (err (o, seat_confirmed)) e = tt
      go (err (o, idempotency_key_mismatch)) e = tt
      go (err (o, api x)) e = tt
      go (err (o, other x)) e = tt

  pay_open-Bought :
      (key : Text)
      → Triple L (Consistent L booking_id) (pay_open L env booking_id key) (Bought L booking_id)
  unfolding pay_open
  pay_open-Bought key =
      bind-Triple L _ _ _ Claimed _
        (ask-Triple L env (Consistent L booking_id) _ Claimed
          (others-Consistent L booking_id env others)
          (λ n s c. claim-Claimed key s _ _ c refl refl))
        (after_claim-Bought key)

  -- The booking that the first read found.
  abbrev Found : Result Error Booking → Shared L → Type 0
  Found r s =
      IsConsistent s.db
      × ((b : Booking) → r ≡ ok b → find_booking booking_id (s.db).bookings ≡ some b)

  abbrev FoundBooking : Booking → Shared L → Type 0
  FoundBooking b s = IsConsistent s.db × (find_booking booking_id (s.db).bookings ≡ some b)

  Found-Triple :
      (r : Result Error Booking)
      → Triple L (Found r) (lift (with_errors (missing_as booking_not_found) r)) FoundBooking
  unfolding lift
  Found-Triple r = record { after = λ w p. go r w p.0 p.1 }
    where
      go :
          (r : Result Error Booking) (w : World L)
          → IsConsistent (w.shared).db
          → ((b : Booking) → r ≡ ok b → find_booking booking_id ((w.shared).db).bookings ≡ some b)
          → OnOk L FoundBooking (with_errors (missing_as booking_not_found) r, w)
      go (ok b) w c found = (c, found b refl)
      go (err e) w c found = tt

  pay-Triple :
      (user_id : ℕ) (key : Text)
      → Triple L (Consistent L booking_id) (pay L env user_id booking_id key) (Bought L booking_id)
  unfolding pay
  pay-Triple user_id key =
      bind-Triple L _ _ _ (λ a. (Consistent L booking_id)) _
        (keeps-Triple L (Consistent L booking_id) _ (lift-Keeps L (Consistent L booking_id) _))
        λ _.
          bind-Triple L _ _ _ Found _
            (ask-Triple L env (Consistent L booking_id) _ Found
              (others-Consistent L booking_id env others)
              (λ n s c. (c, λ b e. get_by_id-eq-ok booking_id s.db b e)))
            λ found. bind-Triple L _ _ _ FoundBooking _ (Found-Triple found) λ b.
              bind-Triple L _ _ _ (λ u. FoundBooking b) _ (ensure-Triple L (FoundBooking b) _ _)
                λ _.
                  choose-Triple L (FoundBooking b) (is_confirmed b.status) _ _ (Bought L booking_id)
                    (λ done. record {
                      after = λ w (c, here).
                          ((replay-Bought L booking_id env others) b key).after w (c, here, done);
                    })
                    (λ open_yet. record { after = λ w (c, here). (pay_open-Bought key).after w c })

  paid :
      (s : Shared L) (r : PayResult)
      → Bought L booking_id r s
      → paid_count booking_id (s.db).payments ≡ 1
  paid s r (b, (c, found, done), e₁, e₂, e₃) = ground (arith, c.paid_once booking_id)

  -- An answer of `Pay` without an error is so in the tables. If the tables are consistent at first and
  -- others run only transactions between the calls, then the booking paid for is in the tables,
  -- confirmed, with exactly one successful payment, and the answer has its id, its total and its
  -- time of confirmation, whatever calls failed or lost their answer on the way.
  pub pay-Bought :
      (user_id : ℕ) (key : Text) (w : World L) (r : PayResult)
      → IsConsistent (w.shared).db
      → (pay L env user_id booking_id key w).0 ≡ ok r
      → let s = (pay L env user_id booking_id key w).1.shared in
        Bought L booking_id r s × (paid_count booking_id (s.db).payments ≡ 1)
  pay-Bought user_id key w r c answer =
      go (pay L env user_id booking_id key w) answer ((pay-Triple user_id key).after w c)
    where
      go :
          (o : Result ApiError PayResult × World L)
          → o.0 ≡ ok r
          → OnOk L (Bought L booking_id) o
          → Bought L booking_id r o.1.shared
            × (paid_count booking_id ((o.1.shared).db).payments ≡ 1)
      go (ok r', w') e q =
          subst
            (λ x.
              Bought L booking_id x w'.shared
              × (paid_count booking_id ((w'.shared).db).payments ≡ 1))
            (ok-injective e) (q, paid w'.shared r' q)
      go (err x, w') e q = absurd (ground arith)
