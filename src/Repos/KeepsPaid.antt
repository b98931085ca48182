-- ===== src/Repos/KeepsPaid.antt =====
-- Every transaction of backend/internal/repos/payment.go, and the sweep, keep the tables consistent.
use seatsync.Prelude.{
  ℕ, ◌≡◌, refl, sym, ap, subst, Bool, true, false, Option, none, some, List, [], ◌∷◌, ◌⊎◌, Text,
  arith, ◌==◌, All-map, contains, if◌then◌else◌, ok, Result-cases, Bool-cases, Option-cases, inl,
  inr,
}
use seatsync.Models.{Booking, Payment, is_pending, is_succeeded, succeeded, failed}
use seatsync.Httpx.{ApiError}
use seatsync.Db.{Db, BookingSeat}
use seatsync.Db.Rows.{
  find_booking, update_booking, map_if, paid_count, confirmed_status, find_booking-update,
}
use seatsync.Repos.{in_tx-keeps, classify, classified, classified-eq-ok}
use seatsync.Repos.Payment.{
  insert_payment, payment_row, record_failure, claim_tx, set_key, claim_idempotency_key,
  confirm_rows, confirm_booking, confirm_tx, confirm,
}
use seatsync.Repos.Expiry.{claimed_ids, expire, expire_rows, claim_expired}
use seatsync.Repos.Lookup.{
  ids-update, ids-expire_rows, find_booking-expire_rows, claimed_ids-lapsed,
}
use seatsync.Repos.SoldOnce.{confirm_rows-sold_once, confirm_rows-All}
use seatsync.Repos.Invariant.{IsConsistent, Follows, stamped, with_bookings-IsConsistent}
use seatsync.Repos.Keeps.{update-IsConsistent}

-- A failed attempt is recorded beside the successful ones.
insert_failure-IsConsistent :
    (p : Payment) (db : Db) (a : Payment) (db' : Db)
    → is_succeeded p.status ≡ false
    → insert_payment p db ≡ ok (a, db')
    → IsConsistent db
    → IsConsistent db'
unfolding insert_payment paid_count
insert_failure-IsConsistent p db a db' f h c =
    subst IsConsistent {x = record db { payments = p ∷ db.payments }} (ground arith) (record {
      ids_distinct = c.ids_distinct;
      sold_once = c.sold_once;
      seats_follow = c.seats_follow;
      paid_once = λ i. ground (arith, c.paid_once i);
      stamps = c.stamps;
    })

pub record_failure-IsConsistent :
    (id now booking_id amount : ℕ) (provider_ref : Text) (db : Db)
    → IsConsistent db
    → IsConsistent (record_failure id now booking_id amount provider_ref db).1
unfolding record_failure
record_failure-IsConsistent id now booking_id amount provider_ref db c =
    let p = payment_row id now failed booking_id amount provider_ref in
    in_tx-keeps IsConsistent (λ d. classified (insert_payment p d)) db c
      (λ a db' e.
        insert_failure-IsConsistent p db a db' refl (classified-eq-ok (insert_payment p db) e) c)

-- A claim writes the key or changes nothing.
pub claim_tx-eq-ok :
    (id : ℕ) (key : Text) (db : Db) (a : Booking) (db' : Db)
    → claim_tx id key db ≡ ok (a, db')
    → (db' ≡ db) ⊎ (db' ≡ record db { bookings = update_booking id (set_key key) db.bookings })
unfolding claim_tx classify
claim_tx-eq-ok id key db a db' h = ground arith

pub claim_idempotency_key-IsConsistent :
    (id : ℕ) (key : Text) (db : Db)
    → IsConsistent db
    → IsConsistent (claim_idempotency_key id key db).1
unfolding claim_idempotency_key
claim_idempotency_key-IsConsistent id key db c =
    in_tx-keeps IsConsistent (claim_tx id key) db c λ a db' e.
      elim (claim_tx-eq-ok id key db a db' e) [
        | inl same ↦ subst IsConsistent (sym same) c
        | inr set ↦
            subst IsConsistent (sym set)
              (update-IsConsistent id (set_key key) db (λ b. refl) (λ b. refl) (λ b. refl) c)
      ]

-- What a committed confirmation found and what it wrote.
pub record Confirmed (payment_id now id amount : ℕ) (provider_ref : Text) (db db' : Db)
    : Type 0 where
  pub current : Booking
  pub rows : List BookingSeat
  pub found : find_booking id db.bookings ≡ some current
  pub was_pending : is_pending current.status ≡ true
  pub unpaid : paid_count id db.payments ≡ 0
  pub passed : confirm_rows id [] db.booking_seats ≡ ok rows
  pub wrote : db' ≡ record db {
    bookings = update_booking id (confirm_booking now) db.bookings;
    booking_seats = rows;
    payments = payment_row payment_id now succeeded id amount provider_ref ∷ db.payments;
  }

pub confirm_tx-eq-ok :
    (payment_id now id amount : ℕ) (provider_ref : Text) (verify : Option ApiError) (db : Db)
    (a : Booking × Payment) (db' : Db)
    → confirm_tx payment_id now id amount provider_ref verify db ≡ ok (a, db')
    → Confirmed payment_id now id amount provider_ref db db'
unfolding confirm_tx
confirm_tx-eq-ok payment_id now id amount provider_ref verify db a db' h =
    elim (Option-cases (find_booking id db.bookings)) [
      | inl missing ↦ absurd (ground arith)
      | inr (current, e) ↦ elim (Result-cases (confirm_rows id [] db.booking_seats)) [
        | inl (rows, p) ↦ record {
          current = current;
          rows = rows;
          found = e;
          was_pending = ground arith;
          unpaid = ground arith;
          passed = p;
          wrote = ground arith;
        }
        | inr (x, p) ↦ absurd (ground arith)
      ]
    ]

module _ (payment_id now id amount : ℕ) (provider_ref : Text) (db : Db) (current : Booking) where
  confirmed_bookings : List Booking
  confirmed_bookings = update_booking id (confirm_booking now) db.bookings

  -- After the update the booking is confirmed, and nothing else has changed.
  status_after :
      (j : ℕ)
      → find_booking id db.bookings ≡ some current
      → confirmed_status (find_booking j confirmed_bookings)
        ≡ (if id == j then true else confirmed_status (find_booking j db.bookings))
  unfolding confirmed_bookings
  status_after j found =
      rw (find_booking-update id j (confirm_booking now) db.bookings (λ b. refl))
        (elim (Bool-cases (id == j)) [
          | inl hit ↦
              let e : id ≡ j = ground arith in
              ground (arith, ap (λ k. find_booking k db.bookings) e)
          | inr miss ↦ rw miss (unchanged (find_booking j db.bookings))
        ])
    where
      unchanged :
          (o : Option Booking)
          → confirmed_status (map_if false (confirm_booking now) o) ≡ confirmed_status o
      unchanged none = refl
      unchanged (some b) = refl

  stamped_after :
      (j : ℕ) (o : Option Booking)
      → stamped o ≡ true
      → stamped (map_if (id == j) (confirm_booking now) o) ≡ true
  stamped_after j none h = h
  stamped_after j (some b) h = ground arith

  confirmed-IsConsistent :
      (rows : List BookingSeat)
      → find_booking id db.bookings ≡ some current
      → is_pending current.status ≡ true
      → paid_count id db.payments ≡ 0
      → confirm_rows id [] db.booking_seats ≡ ok rows
      → IsConsistent db
      → IsConsistent (record db {
        bookings = confirmed_bookings;
        booking_seats = rows;
        payments = payment_row payment_id now succeeded id amount provider_ref ∷ db.payments;
      })
  unfolding payment_row paid_count confirmed_bookings
  confirmed-IsConsistent rows found was unpaid passed c = record {
    ids_distinct = rw (ids-update id (confirm_booking now) db.bookings (λ b. refl)) c.ids_distinct;
    sold_once = confirm_rows-sold_once id db.booking_seats rows c.sold_once passed;
    seats_follow =
        confirm_rows-All (Follows (update_booking id (confirm_booking now) db.bookings)) id []
          db.booking_seats rows tt
          (All-map db.booking_seats
            (λ r f. (
              λ e. ground (arith, status_after r.booking_id found),
              λ ne. ground (arith, status_after r.booking_id found),
            ))
            c.seats_follow)
          passed;
    paid_once = λ i. elim (Bool-cases (id == i)) [
      | inl hit ↦
          let e : id ≡ i = ground arith in
          ground (arith, status_after i found, ap (λ k. paid_count k db.payments) e)
      | inr miss ↦ ground (arith, status_after i found, c.paid_once i)
    ];
    stamps = λ i.
        rw (find_booking-update id i (confirm_booking now) db.bookings (λ b. refl))
          (stamped_after i (find_booking i db.bookings) (c.stamps i));
  }

pub confirm-IsConsistent :
    (payment_id now id amount : ℕ) (provider_ref : Text) (verify : Option ApiError) (db : Db)
    → IsConsistent db
    → IsConsistent (confirm payment_id now id amount provider_ref verify db).1
unfolding confirm confirmed_bookings
confirm-IsConsistent payment_id now id amount provider_ref verify db c =
    in_tx-keeps IsConsistent (confirm_tx payment_id now id amount provider_ref verify) db c
      λ a db' e.
        let k = confirm_tx-eq-ok payment_id now id amount provider_ref verify db a db' e in
        subst IsConsistent (sym k.wrote) (
          confirmed-IsConsistent payment_id now id amount provider_ref db k.current k.rows k.found
            k.was_pending k.unpaid k.passed c)

map_if-false : (o : Option Booking) → confirmed_status (map_if false expire o) ≡ confirmed_status o
map_if-false none = refl
map_if-false (some b) = refl

-- The sweep expires pending bookings only.
pub claim_expired-IsConsistent :
    (limit : ℕ) (locked : ℕ → Bool) (now : ℕ) (db : Db)
    → IsConsistent db
    → IsConsistent (claim_expired limit locked now db).1
unfolding claim_expired
claim_expired-IsConsistent limit locked now db c =
    with_bookings-IsConsistent db (expire_rows claimed db.bookings) c
      (rw (ids-expire_rows claimed db.bookings) c.ids_distinct)
      (λ j. rw (find_booking-expire_rows claimed j db.bookings) (same j))
      (λ j. rw (find_booking-expire_rows claimed j db.bookings) (stamps j))
  where
    claimed : List ℕ
    claimed = claimed_ids limit locked now db.bookings

    same :
        (j : ℕ)
        → confirmed_status (map_if (contains claimed j) expire (find_booking j db.bookings))
          ≡ confirmed_status (find_booking j db.bookings)
    same j = elim (Bool-cases (contains claimed j)) [
      | inl hit ↦
          let (b, found, l) =
            claimed_ids-lapsed limit locked now db.bookings j c.ids_distinct hit in
          rw (hit, found) (ground arith)
      | inr miss ↦ rw miss (map_if-false (find_booking j db.bookings))
    ]

    stamps :
        (j : ℕ) → stamped (map_if (contains claimed j) expire (find_booking j db.bookings)) ≡ true
    stamps j = elim (Bool-cases (contains claimed j)) [
      | inl hit ↦
          let (b, found, l) =
            claimed_ids-lapsed limit locked now db.bookings j c.ids_distinct hit in
          rw (hit, found) (ground (arith, ap stamped found, c.stamps j))
      | inr miss ↦ ground (arith, c.stamps j)
    ]
