-- ===== src/Repos/Settled.antt =====
-- A booking that has left `pending` (backend/internal/models/models.go) is never touched again by
-- the transactions of backend/internal/repos.
use seatsync.Prelude.{
  ℕ, ◌≡◌, refl, sym, ap, subst, Bool, true, false, Option, some, List, Text, arith, ◌==◌, contains,
  ok, Result-cases, Bool-cases, Option-cases, inl, inr,
}
use seatsync.Models.{Booking, is_pending, failed}
use seatsync.Httpx.{ApiError}
use seatsync.Db.{Db}
use seatsync.Db.Rows.{find_booking, update_booking, find_booking-update}
use seatsync.Repos.{in_tx-keeps, classify, classified}
use seatsync.Repos.Booking.{
  copy_rows, create_pending, create_pending_tx, pending_booking, cancel_pending, mark_cancelled,
}
use seatsync.Repos.Payment.{
  insert_payment, payment_row, record_failure, claim_tx, set_key, claim_idempotency_key,
  confirm_booking, confirm_tx, confirm,
}
use seatsync.Repos.Expiry.{claimed_ids, claim_expired}
use seatsync.Repos.Lookup.{find_booking-expire_rows, claimed_ids-lapsed}
use seatsync.Repos.Invariant.{IsConsistent}
use seatsync.Repos.KeepsPaid.{confirm_tx-eq-ok}

-- The booking stands in the table under its id.
abbrev pub Stands : ℕ → Booking → Db → Type 0
Stands j b db = find_booking j db.bookings ≡ some b

module _ (j : ℕ) (b : Booking) (db : Db) (settled : is_pending b.status ≡ false)
    (stands : Stands j b db) where
  create_pending_tx-Stands :
      (new : Booking) (seat_ids : List ℕ) (a : Booking) (db' : Db)
      → create_pending_tx new seat_ids db ≡ ok (a, db')
      → Stands j b db'
  unfolding create_pending_tx find_booking
  create_pending_tx-Stands new seat_ids a db' h =
      elim (Result-cases (copy_rows new.id new.event_id db.seats seat_ids db.booking_seats)) [
        | inl (rows, e) ↦ elim (Bool-cases (new.id == j)) [
          | inl hit ↦
              let same : new.id ≡ j = ground arith in
              absurd (ground (arith, ap (λ k. find_booking k db.bookings) same))
          | inr miss ↦ ground arith
        ]
        | inr (x, e) ↦ absurd (ground arith)
      ]

  pub create_pending-Stands :
      (id now user_id event_id : ℕ) (seat_ids : List ℕ) (total_amount : ℕ) (lock_token : Text)
      (hold_expires_at : ℕ)
      → Stands j b
          (create_pending id now user_id event_id seat_ids total_amount lock_token hold_expires_at
            db).1
  unfolding create_pending
  create_pending-Stands id now user_id event_id seat_ids total_amount lock_token hold_expires_at =
      let new = pending_booking id now user_id event_id total_amount lock_token hold_expires_at in
      in_tx-keeps (Stands j b) (create_pending_tx new seat_ids) db stands
        (create_pending_tx-Stands new seat_ids)

  pub mark_cancelled-Stands : (id : ℕ) → Stands j b (mark_cancelled id db).1
  unfolding mark_cancelled
  mark_cancelled-Stands id =
      rw (find_booking-update id j cancel_pending db.bookings (λ c. ground arith), stands)
        (ground arith)

  pub record_failure-Stands :
      (id now booking_id amount : ℕ) (provider_ref : Text)
      → Stands j b (record_failure id now booking_id amount provider_ref db).1
  unfolding record_failure
  record_failure-Stands id now booking_id amount provider_ref =
      in_tx-keeps (Stands j b)
        (λ d.
          classified (insert_payment (payment_row id now failed booking_id amount provider_ref) d))
        db stands λ a db' e. ground arith

  -- An update of a row that is pending leaves the settled booking alone.
  update_pending-Stands :
      (id : ℕ) (f : Booking → Booking) (current : Booking)
      → ((c : Booking) → (f c).id ≡ c.id)
      → find_booking id db.bookings ≡ some current
      → is_pending current.status ≡ true
      → find_booking j (update_booking id f db.bookings) ≡ some b
  update_pending-Stands id f current k found p =
      rw (find_booking-update id j f db.bookings k, stands)
        (elim (Bool-cases (id == j)) [
          | inl hit ↦
              let same : id ≡ j = ground arith in
              absurd (ground (arith, ap (λ i. find_booking i db.bookings) same))
          | inr miss ↦ ground arith
        ])

  claim_tx-Stands :
      (id : ℕ) (key : Text) (a : Booking) (db' : Db)
      → claim_tx id key db ≡ ok (a, db')
      → Stands j b db'
  unfolding claim_tx classify
  claim_tx-Stands id key a db' h = elim (Option-cases (find_booking id db.bookings)) [
    | inl missing ↦ absurd (ground arith)
    | inr (current, e) ↦
        ground (arith, update_pending-Stands id (set_key key) current (λ c. refl) e)
  ]

  pub claim_idempotency_key-Stands :
      (id : ℕ) (key : Text) → Stands j b (claim_idempotency_key id key db).1
  unfolding claim_idempotency_key
  claim_idempotency_key-Stands id key =
      in_tx-keeps (Stands j b) (claim_tx id key) db stands (claim_tx-Stands id key)

  pub confirm-Stands :
      (payment_id now id amount : ℕ) (provider_ref : Text) (verify : Option ApiError)
      → Stands j b (confirm payment_id now id amount provider_ref verify db).1
  unfolding confirm
  confirm-Stands payment_id now id amount provider_ref verify =
      in_tx-keeps (Stands j b) (confirm_tx payment_id now id amount provider_ref verify) db stands
        λ a db' e.
          let k = confirm_tx-eq-ok payment_id now id amount provider_ref verify db a db' e in
          subst (Stands j b) (sym k.wrote) (
            update_pending-Stands id (confirm_booking now) k.current (λ c. refl) k.found
              k.was_pending)

  pub claim_expired-Stands :
      (limit : ℕ) (locked : ℕ → Bool) (now : ℕ)
      → IsConsistent db
      → Stands j b (claim_expired limit locked now db).1
  unfolding claim_expired
  claim_expired-Stands limit locked now c =
      let claimed = claimed_ids limit locked now db.bookings in
      rw (find_booking-expire_rows claimed j db.bookings, stands)
        (elim (Bool-cases (contains claimed j)) [
          | inl hit ↦
              let (d, found, l) =
                claimed_ids-lapsed limit locked now db.bookings j c.ids_distinct hit in
              absurd (ground arith)
          | inr miss ↦ ground arith
        ])
