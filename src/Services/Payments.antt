-- ===== src/Services/Payments.antt =====
-- `PaymentService` of backend/internal/services/payments.go.
use seatsync.Prelude.{
  codes, ◌++◌, ℕ, Bool, true, false, not, ◌&&◌, Option, none, some, List, [], ◌∷◌, Text, text_eq,
  Result, ok, err, ltb, ◌==◌, length, is_empty, trim_space, if◌then◌else◌,
}
use seatsync.Models.{Booking, BookingStatus, Payment, is_confirmed, sold}
use seatsync.Httpx.{
  ApiError, bad_request, validation, conflict, internal, api_error, with_details, code_conflict,
  code_seats_taken, code_hold_expired, code_payment_failed, expired_seat_ids, for_booking,
  retry_allowed,
}
use seatsync.Repos.{api, seat_confirmed, booking_not_pending, idempotency_key_mismatch}
use seatsync.Repos.Booking.{get_by_id, seat_ids_for}
use seatsync.Repos.Payment.{Failure, record_failure, succeeded_for, claim_idempotency_key, confirm}
use seatsync.Services.Holds.{missing_as, booking_not_found, release_locks, broadcast}
use seatsync.Services.World.{
  SeatLocker, ChargeResult, World, Schedule, Service, Effect, ◌>>=◌, ◌>>◌, lift, ensure, deferring,
  with_errors, ask, attempt, reading, writing, locking, stored,
}

pub record PayResult : Type 0 where
  pub booking_id : ℕ
  pub status : BookingStatus
  pub payment : Payment
  pub total_amount : ℕ
  pub confirmed_at : Option ℕ
  pub replayed : Bool

abbrev pub key_required : ApiError
key_required = bad_request (codes "An Idempotency-Key header is required to pay for a booking.")

abbrev pub key_too_short : ApiError
key_too_short = validation (codes "Idempotency-Key must be at least 8 characters.")

abbrev pub key_too_long : ApiError
key_too_long = validation (codes "Idempotency-Key must be at most 255 characters.")

unfoldable pub validate_idempotency_key : Text → Result ApiError (Unit {0})
validate_idempotency_key key =
    let trimmed = trim_space key in
    if is_empty trimmed
    then err key_required
    else if ltb (length trimmed) 8
    then err key_too_short
    else if ltb 255 (length trimmed)
    then err key_too_long
    else ok tt

abbrev pub hold_lapsed : ApiError
hold_lapsed =
    conflict code_hold_expired (codes "This booking is no longer payable; the hold has lapsed.")

abbrev pub locks_lost : List ℕ → ApiError
locks_lost ids =
    with_details
      (conflict code_hold_expired (codes "Your hold on one or more of those seats has expired."))
      (expired_seat_ids ids)

abbrev pub other_key : ApiError
other_key =
    conflict code_conflict
      (codes "This booking is already being paid for under a different Idempotency-Key.")

abbrev pub paid_under_other_key : ApiError
paid_under_other_key =
    conflict code_conflict
      (codes "This booking was already paid for under a different Idempotency-Key.")

abbrev pub in_progress : ApiError
in_progress = conflict code_conflict (codes "A payment for this booking is already in progress.")

abbrev pub lost_race : ℕ → ApiError
lost_race booking_id =
    with_details
      (conflict code_seats_taken
        (codes "Someone else completed payment for one of those seats first."))
      (for_booking booking_id)

abbrev pub decline_message : Text → Text
decline_message reason =
    (if is_empty reason then codes "The payment was declined." else reason)
    ++ codes " Your seats are still held; you can try again."

abbrev pub declined : Booking → ChargeResult → Payment → ApiError
declined booking charge payment =
    with_details (api_error 402 code_payment_failed (decline_message charge.decline_reason))
      (retry_allowed booking.id payment.id payment.provider_ref booking.hold_expires_at)

-- `paymentSlotTTL`, in milliseconds.
abbrev pub payment_slot_ttl : ℕ
payment_slot_ttl = 30000

-- A key that was presented and differs from the stored one.
abbrev pub differs : Text → Option Text → Bool
differs presented none = false
differs presented (some key) = not (is_empty presented) && not (text_eq key presented)

abbrev pub missing_locks : List ℕ → Result ApiError (Unit {0})
missing_locks [] = ok tt
missing_locks (s ∷ ss) = err (locks_lost (s ∷ ss))

abbrev pub lock_error : List ℕ → Option ApiError
lock_error [] = none
lock_error (s ∷ ss) = some (locks_lost (s ∷ ss))

abbrev pub pay_result : Bool → Booking → Payment → PayResult
pay_result replayed booking payment = record {
  booking_id = booking.id;
  status = booking.status;
  payment = payment;
  total_amount = booking.total_amount;
  confirmed_at = booking.confirmed_at;
  replayed = replayed;
}

module _ (L : SeatLocker) where
  -- `verifySeatLocks` on the state that the call meets.
  abbrev pub lock_check : Booking → List ℕ → Effect L (List ℕ)
  lock_check booking seat_ids m s =
      (L.holds_for m.now booking.event_id booking.user_id booking.lock_token seat_ids s.locks, s)

  -- The confirming transaction with its callback, which may not reach the store.
  unfoldable pub confirming :
      Booking → List ℕ → Text → Effect L (Result Failure (Booking × Payment))
  confirming booking seat_ids reference m s =
      let missing =
        L.holds_for m.now booking.event_id booking.user_id booking.lock_token seat_ids s.locks in
      stored L s (
        confirm m.fresh_id m.now booking.id booking.total_amount reference
          (if m.reaches_store then lock_error missing else some internal) s.db)

  -- The provider's `Charge`.
  unfoldable pub charging : ℕ → Text → Effect L ChargeResult
  charging amount key m s = (
    m.decision,
    record s { charges = record { amount = amount; idempotency_key = key } ∷ s.charges },
  )

  module _ (env : Schedule L) where
    unfoldable pub replay : Booking → Text → Service (World L) PayResult
    replay booking presented = do
      ensure (not (differs presented booking.idempotency_key)) paid_under_other_key
      found ← ask L env (reading L (succeeded_for booking.id))
      payment ← lift (with_errors (λ e. internal) found)
      lift (ok (pay_result true booking payment))

    -- What a lost `pending` state means: the purchase is complete, or the hold has lapsed.
    unfoldable pub replay_or_lapsed : Option Booking → Text → Service (World L) PayResult
    replay_or_lapsed none presented w = (err hold_lapsed, w)
    replay_or_lapsed (some b) presented w =
        if is_confirmed b.status then replay b presented w else (err hold_lapsed, w)

    unfoldable pub record_decline : Booking → ChargeResult → Service (World L) PayResult
    record_decline booking charge = do
      recorded ← ask L env (
          writing L
            (λ m. record_failure m.fresh_id m.now booking.id booking.total_amount charge.reference))
      payment ← lift (with_errors (λ e. internal) recorded)
      lift (err (declined booking charge payment))

    -- The end of `confirm`, by what became of the transaction.
    unfoldable pub after_confirm :
        Booking → List ℕ → Option (Result Failure (Booking × Payment)) → Service (World L) PayResult
    after_confirm booking seat_ids none = lift (err internal)
    after_confirm booking seat_ids (some (ok (bought, payment))) = do
      release_locks L env bought.event_id bought.user_id bought.lock_token seat_ids
      broadcast L env bought.event_id seat_ids sold
      lift (ok (pay_result false bought payment))
    after_confirm booking seat_ids (some (err (current, seat_confirmed))) =
        lift (err (lost_race booking.id))
    after_confirm booking seat_ids (some (err (current, booking_not_pending))) =
        replay_or_lapsed current []
    after_confirm booking seat_ids (some (err (current, api e))) = lift (err e)
    after_confirm booking seat_ids (some (err (current, _))) = lift (err internal)

    unfoldable pub confirm_purchase : Booking → List ℕ → ChargeResult → Service (World L) PayResult
    confirm_purchase booking seat_ids charge = do
      outcome ← attempt L env (confirming booking seat_ids charge.reference)
      after_confirm booking seat_ids outcome

    unfoldable pub settle : Booking → List ℕ → ChargeResult → Service (World L) PayResult
    settle booking seat_ids charge w =
        if charge.succeeded
        then confirm_purchase booking seat_ids charge w
        else record_decline booking charge w

    -- `Pay` with the payment slot taken.
    unfoldable pub charge_and_settle : ℕ → Booking → Text → Service (World L) PayResult
    charge_and_settle booking_id booking key = do
      seat_ids ← ask L env (reading L (seat_ids_for booking_id))
      missing ← ask L env (lock_check booking seat_ids)
      lift (missing_locks missing)
      charge ← ask L env (charging booking.total_amount key)
      settle booking seat_ids charge

    unfoldable pub release_slot : ℕ → Service (World L) (Unit {0})
    release_slot booking_id =
        ask L env (locking L (λ m l. (tt, L.release_payment_slot m.now booking_id l)))

    unfoldable pub pay_claimed : ℕ → Booking → Text → Service (World L) PayResult
    pay_claimed booking_id booking key = do
      acquired ←
          ask L env (locking L (λ m. L.acquire_payment_slot m.now payment_slot_ttl booking_id))
      ensure acquired in_progress
      deferring (release_slot booking_id) (charge_and_settle booking_id booking key)

    -- The switch on the claim's answer.
    unfoldable pub after_claim : ℕ → Text → Result Failure Booking → Service (World L) PayResult
    after_claim booking_id key (ok claimed) = pay_claimed booking_id claimed key
    after_claim booking_id key (err (claimed, idempotency_key_mismatch)) = lift (err other_key)
    after_claim booking_id key (err (claimed, booking_not_pending)) = replay_or_lapsed claimed key
    after_claim booking_id key (err (claimed, _)) = lift (err internal)

    unfoldable pub pay_open : ℕ → Text → Service (World L) PayResult
    pay_open booking_id key = do
      claim ← ask L env (writing L (λ m. claim_idempotency_key booking_id key))
      after_claim booking_id key claim

    unfoldable pub pay : ℕ → ℕ → Text → Service (World L) PayResult
    pay user_id booking_id key = do
      lift (validate_idempotency_key key)
      found ← ask L env (reading L (get_by_id booking_id))
      booking ← lift (with_errors (missing_as booking_not_found) found)
      ensure (booking.user_id == user_id) booking_not_found
      λ w. if is_confirmed booking.status then replay booking key w else pay_open booking_id key w
