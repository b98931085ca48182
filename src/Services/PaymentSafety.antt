-- ===== src/Services/PaymentSafety.antt =====
-- How `Pay` of backend/internal/services/payments.go moves the shared state: from a property P that
-- holds up to the charge to a property Q that holds from the charge on.
use seatsync.Prelude.{
  ◌≡◌, ◌≤◌, ◌+◌, ap, length, arith, ◌∷◌, ℕ, Bool, true, false, Text, Result, ok, err, if◌then◌else◌,
}
use seatsync.Models.{Booking, is_confirmed}
use seatsync.Httpx.{ApiError}
use seatsync.Repos.{booking_not_pending, idempotency_key_mismatch}
use seatsync.Repos.Payment.{Failure}
use seatsync.Repos.KeepsPaid.{
  record_failure-IsConsistent, claim_idempotency_key-IsConsistent, confirm-IsConsistent,
}
use seatsync.Services.World.{
  SeatLocker, Shared, Charge, World, Schedule, Service, ◌>>=◌, continue, deferring, ask, call,
}
use seatsync.Services.Keeps.{Keeps, OthersKeep, lift-Keeps, ensure-Keeps, ask-Keeps, fated-Keeps}
use seatsync.Services.Safety.{Safe}
use seatsync.Services.PaymentParts.{
  Closed, replay-Keeps, replay_or_lapsed-Keeps, record_decline-Keeps, confirm_purchase-Keeps,
  choose-Keeps,
}
use seatsync.Services.Payments.{
  PayResult, charging, replay, settle, charge_and_settle, release_slot, pay_claimed, after_claim,
  pay_open, pay,
}

-- From a state with P the service ends in one with Q, whatever it answers.
pub record Moves {ℓ} {A : Type ℓ} (L : SeatLocker) (P Q : Shared L → Type 0)
    (m : Service (World L) A) : Type 0 where
  pub moves : (w : World L) → P w.shared → Q (m w).1.shared

module _ (L : SeatLocker) (P Q : Shared L → Type 0) (weaken : (s : Shared L) → P s → Q s) where
  -- The charge comes later.
  later-Moves {ℓ κ} :
      {A : Type ℓ} {B : Type κ} (m : Service (World L) A) (f : A → Service (World L) B)
      → Keeps L P m
      → ((a : A) → Moves L P Q (f a))
      → Moves L P Q (m >>= f)
  unfolding ◌>>=◌
  later-Moves {A = A} m f km mf = record { moves = λ w p. go (m w) (km.keeps w p) }
    where
      go : (r : Result ApiError A × World L) → P r.1.shared → Q (continue f r).1.shared
      go (ok a, w') q = (mf a).moves w' q
      go (err e, w') q = weaken w'.shared q

  -- The charge is done.
  done-Moves {ℓ κ} :
      {A : Type ℓ} {B : Type κ} (m : Service (World L) A) (f : A → Service (World L) B)
      → Moves L P Q m
      → ((a : A) → Keeps L Q (f a))
      → Moves L P Q (m >>= f)
  unfolding ◌>>=◌
  done-Moves {A = A} m f mm kf = record { moves = λ w p. go (m w) (mm.moves w p) }
    where
      go : (r : Result ApiError A × World L) → Q r.1.shared → Q (continue f r).1.shared
      go (ok a, w') q = (kf a).keeps w' q
      go (err e, w') q = q

  kept-Moves {ℓ} : {A : Type ℓ} (m : Service (World L) A) → Keeps L P m → Moves L P Q m
  kept-Moves m k = record { moves = λ w p. weaken (m w).1.shared (k.keeps w p) }

  module _ (closedP : Closed L P) (closedQ : Closed L Q) (env : Schedule L)
      (othersP : OthersKeep L P env) (othersQ : OthersKeep L Q env)
      (charge : (s : Shared L) (c : Charge) → P s → Q (record s { charges = c ∷ s.charges })) where
    charging-Moves : (amount : ℕ) (key : Text) → Moves L P Q (ask L env (charging L amount key))
    unfolding ask call charging
    charging-Moves amount key = record {
      moves = λ w p.
          let m = env w.calls in
          let s = m.before w.shared in
          let q = othersP w.calls w.shared p in
          fated-Keeps L Q env othersQ m.fate (charging L amount key m s) s (weaken s q)
            (charge s _ q);
    }

    charge_and_settle-Moves :
        (booking_id : ℕ) (b : Booking) (key : Text)
        → Moves L P Q (charge_and_settle L env booking_id b key)
    unfolding charge_and_settle settle
    charge_and_settle-Moves booking_id b key =
        later-Moves _ _ (ask-Keeps L P env othersP _ (λ n s c. c)) λ seat_ids.
          later-Moves _ _ (ask-Keeps L P env othersP _ (λ n s c. c)) λ missing.
            later-Moves _ _ (lift-Keeps L P _) λ _.
              done-Moves _ _ (charging-Moves b.total_amount key) λ answer.
                choose-Keeps L Q closedQ env othersQ answer.succeeded _ _
                  (confirm_purchase-Keeps L Q closedQ env othersQ b seat_ids answer)
                  (record_decline-Keeps L Q closedQ env othersQ b answer)

    pay_claimed-Moves :
        (booking_id : ℕ) (b : Booking) (key : Text)
        → Moves L P Q (pay_claimed L env booking_id b key)
    unfolding pay_claimed release_slot deferring
    pay_claimed-Moves booking_id b key =
        later-Moves _ _ (ask-Keeps L P env othersP _ (λ n s c. closedP.locks s _ c)) λ acquired.
          later-Moves _ _ (ensure-Keeps L P _ _) λ _. record {
            moves = λ w p.
                (ask-Keeps L Q env othersQ _ (λ n s c. closedQ.locks s _ c)).keeps _
                  ((charge_and_settle-Moves booking_id b key).moves w p);
          }

    choose-Moves :
        (b : Bool) (m n : Service (World L) PayResult)
        → Moves L P Q m
        → Moves L P Q n
        → Moves L P Q (λ w. if b then m w else n w)
    choose-Moves true m n km kn = record { moves = km.moves }
    choose-Moves false m n km kn = record { moves = kn.moves }

    after_claim-Moves :
        (booking_id : ℕ) (key : Text) (r : Result Failure Booking)
        → Moves L P Q (after_claim L env booking_id key r)
    unfolding after_claim
    after_claim-Moves booking_id key (ok b) = pay_claimed-Moves booking_id b key
    after_claim-Moves booking_id key (err (c, booking_not_pending)) =
        kept-Moves _ (replay_or_lapsed-Keeps L P closedP env othersP c key)
    after_claim-Moves booking_id key (err (c, idempotency_key_mismatch)) =
        kept-Moves _ (lift-Keeps L P _)
    after_claim-Moves booking_id key (err (c, _)) = kept-Moves _ (lift-Keeps L P _)

    pub pay-Moves :
        (user_id booking_id : ℕ) (key : Text) → Moves L P Q (pay L env user_id booking_id key)
    unfolding pay pay_open
    pay-Moves user_id booking_id key = later-Moves _ _ (lift-Keeps L P _) λ _.
        later-Moves _ _ (ask-Keeps L P env othersP _ (λ n s c. c)) λ found.
          later-Moves _ _ (lift-Keeps L P _) λ b. later-Moves _ _ (ensure-Keeps L P _ _) λ _.
            choose-Moves (is_confirmed b.status) (replay L env b key) _
              (kept-Moves _ (replay-Keeps L P closedP env othersP b key))
              (later-Moves _ _
                (ask-Keeps L P env othersP _ (λ n s c. closedP.claims booking_id key s c))
                (after_claim-Moves booking_id key))

module _ (L : SeatLocker) (env : Schedule L) where
  Safe-Closed : Closed L (Safe L)
  Safe-Closed = record {
    locks = λ s l c. c;
    sends = λ s b c. c;
    failures = λ id now booking_id amount ref s c.
        record_failure-IsConsistent id now booking_id amount ref s.db c;
    claims = λ id key s c. claim_idempotency_key-IsConsistent id key s.db c;
    confirms = λ payment_id now id amount ref verify s c.
        confirm-IsConsistent payment_id now id amount ref verify s.db c;
  }

  pub pay-Safe :
      OthersKeep L (Safe L) env
      → (user_id booking_id : ℕ) (key : Text) → Keeps L (Safe L) (pay L env user_id booking_id key)
  pay-Safe others user_id booking_id key = record {
    keeps =
        (pay-Moves L (Safe L) (Safe L) (λ s c. c) Safe-Closed Safe-Closed env others others
          (λ s c p. p) user_id booking_id key).moves;
  }

  abbrev ChargedAtMost : ℕ → Shared L → Type 0
  ChargedAtMost k s = length s.charges ≤ k

  ChargedAtMost-Closed : (k : ℕ) → Closed L (ChargedAtMost k)
  ChargedAtMost-Closed k = record {
    locks = λ s l c. c;
    sends = λ s b c. c;
    failures = λ id now booking_id amount ref s c. c;
    claims = λ id key s c. c;
    confirms = λ payment_id now id amount ref verify s c. c;
  }

  -- One call of `Pay` charges at most once, whatever it answers, whichever of its calls fail or
  -- lose their answer, and for any schedule of others that do not charge.
  pub length-charges-pay :
      ((n : ℕ) (s : Shared L) → ((env n).before s).charges ≡ s.charges)
      → (user_id booking_id : ℕ) (key : Text) (w : World L)
      → length (pay L env user_id booking_id key w).1.shared.charges ≤ length w.shared.charges + 1
  length-charges-pay others user_id booking_id key w =
      (pay-Moves L (ChargedAtMost (length w.shared.charges))
          (ChargedAtMost (length w.shared.charges + 1)) (λ s c. omega (arith, c))
          (ChargedAtMost-Closed _) (ChargedAtMost-Closed _) env
          (λ n s c. ground (arith, others n s, ap length (others n s)))
          (λ n s c. ground (arith, ap length (others n s))) (λ s c p. ground (arith, p)) user_id
          booking_id key).moves
        w (omega arith)
