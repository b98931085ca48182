-- ===== src/Tests/ServiceRuns.antt =====
-- A user who holds the seats 4 and 5 and pays for them, with no one else about.
use seatsync.Prelude.{
  ℕ, some, ◌+◌, ◌≤◌, ◌<◌, ◌≡◌, refl, true, false, List, [], ◌∷◌, map, codes, length, contains,
  Distinct,
}
use seatsync.Models.{SeatHold}
use seatsync.Repos.Invariant.{IsConsistent}
use seatsync.Repos.History.{catalogue-IsConsistent}
use seatsync.Repos.Event.{SeatRow}
use seatsync.Services.Selection.{
  validate_seat_selection, unique_seats, validate_seat_selection_valid,
}
use seatsync.Services.Catalog.{build_seat_map}
use seatsync.Services.SeatMap.{expected_entry, Counted, build_seat_map_lem}
use seatsync.Services.Locker.{manager_locker}
use seatsync.Services.World.{SeatLocker, Shared, Schedule, served}
use seatsync.Services.Requests.{
  Request, creates_hold, pays_for, sweeps, serve_all, serve_all-IsConsistent,
}
use seatsync.Models.{confirmed, succeeded}
use seatsync.Db.Rows.{paid_count}
use seatsync.Repos.Payment.{payment_row}
use seatsync.Repos.History.{run}
use seatsync.Services.World.{World}
use seatsync.Services.Payments.{PayResult, pay}
use seatsync.Services.Purchase.{Bought}
use seatsync.Services.Purchase.Answer.{pay-Bought}
use seatsync.Services.World.{◌>>=◌, lift, ensure, deferring, quietly, ask, attempt, call, tell}
use seatsync.Prelude.{trim_left, trim_space}
use seatsync.Services.Payments.{
  validate_idempotency_key, pay_open, after_claim, pay_claimed, charge_and_settle, settle,
  confirm_purchase, after_confirm, confirming, charging, release_slot,
}
use seatsync.Services.Holds.{release_locks, broadcast, seat_updates}
use seatsync.Repos.Booking.{
  get_by_id, seat_ids_for, seat_ids_in, insert_sorted, create_pending, create_pending_tx,
  pending_booking, insert_booking, copy_rows, has_row,
}
use seatsync.Repos.Payment.{
  claim_idempotency_key, claim_tx, claim_pending, claim_row, key_taken, confirm, confirm_tx,
  confirm_rows, insert_payment, has_payment,
}
use seatsync.Repos.History.{step, catalogue, creates, run-IsConsistent}
use seatsync.Db.Rows.{find_booking, update_booking, find_event, seat_exists, sold}
use seatsync.Locks.Manager.{holds_for, acquire_payment_slot, release_payment_slot, release, targets}
use seatsync.Locks.Scripts.{release_script}
use seatsync.Locks.Keys.{lock_key, lock_value, reserved_key, payment_slot_key}
use seatsync.Services.PaymentSafety.{length-charges-pay}
use seatsync.Tests.Stores.{lookup, set_if_free}
use seatsync.Prelude.{text_eq}
use seatsync.Services.PaymentSafety.{length-charges-pay}
use seatsync.Tests.Stores.{letters, server, empty_server}
use seatsync.Tests.TableRuns.{hall, seats, venues, events}

validate_seat_selection_valid_example :
    Distinct (4 ∷ 5 ∷ [])
    × (contains (4 ∷ 5 ∷ []) 0 ≡ false)
    × ((s : ℕ) → contains (4 ∷ 5 ∷ []) s ≡ contains (4 ∷ 5 ∷ 4 ∷ []) s)
    × (0 < length {A = ℕ} (4 ∷ 5 ∷ []))
    × (length {A = ℕ} (4 ∷ 5 ∷ []) ≤ 6)
unfolding validate_seat_selection unique_seats contains
validate_seat_selection_valid_example =
    validate_seat_selection_valid 6 (4 ∷ 5 ∷ 4 ∷ []) (4 ∷ 5 ∷ []) refl

abbrev rows : List SeatRow
rows = map (λ s. record { seat = s; confirmed = false }) seats

abbrev hold_of_1 : ℕ × SeatHold
hold_of_1 = (4, record { user_id = 1; expires_at = 9000 })

build_seat_map_lem_example :
    ((build_seat_map 3 100 rows (hold_of_1 ∷ []) 1).seats
      ≡ map (expected_entry 100 (hold_of_1 ∷ []) 1) rows)
    × Counted (build_seat_map 3 100 rows (hold_of_1 ∷ []) 1)
build_seat_map_lem_example = build_seat_map_lem 3 100 1 rows (hold_of_1 ∷ [])

abbrev pub locker : SeatLocker
locker = manager_locker letters server 600000

-- Every call is served at the time 1000 and a millisecond for each call; the provider accepts.
abbrev pub quiet : Schedule locker
quiet n = record {
  before = λ s. s;
  fate = served;
  clock = 1000 + n;
  now = 1000 + n;
  fresh_id = 10 + n;
  fresh_token = codes "token";
  reaches_store = true;
  decision = record { succeeded = true; reference = codes "ref"; decline_reason = [] };
  row_locks = λ id. false;
}

abbrev pub opening : Shared locker
opening = record { db = hall; locks = empty_server; sent = []; charges = [] }

abbrev pub purchase : List (Schedule locker × Request)
purchase =
    (quiet, creates_hold 6 1 3 (4 ∷ 5 ∷ []))
    ∷ (quiet, pays_for 1 14 (codes "key-of-user-1"))
    ∷ (quiet, sweeps 2)
    ∷ []

serve_all-IsConsistent_example : IsConsistent (serve_all locker purchase opening).db
serve_all-IsConsistent_example =
    serve_all-IsConsistent locker purchase opening (λ n s c. c, (λ n s c. c, (λ n s c. c, tt)))
      (catalogue-IsConsistent (1 ∷ 2 ∷ []) venues events seats)

-- The shared state while the user 1 holds both seats, by the booking 14.
abbrev after_hold : World locker
after_hold = record {
  shared = record {
    db = run (creates 14 1000 1 3 (4 ∷ 5 ∷ []) 300 (codes "t") 601000 ∷ []) hall;
    locks = record {
      keys =
          (lock_key letters 3 4, some (lock_value letters 1 (codes "t"), 601000))
          ∷ (lock_key letters 3 5, some (lock_value letters 1 (codes "t"), 601000))
          ∷ [];
      members = [];
    };
    sent = [];
    charges = [];
  };
  calls = 0;
}

abbrev receipt : PayResult
receipt = record {
  booking_id = 14;
  status = confirmed;
  payment = payment_row 16 1006 succeeded 14 300 (codes "ref");
  total_amount = 300;
  confirmed_at = some 1006;
  replayed = false;
}

pay-Bought_example :
    let s = (pay locker quiet 1 14 (codes "key-of-user-1") after_hold).1.shared in
    Bought locker 14 receipt s × (paid_count 14 (s.db).payments ≡ 1)
unfolding ◌>>=◌ lift ensure deferring quietly ask attempt call tell trim_left trim_space
    validate_idempotency_key pay pay_open after_claim pay_claimed charge_and_settle settle
    confirm_purchase after_confirm confirming charging release_slot release_locks broadcast
    seat_updates get_by_id seat_ids_for seat_ids_in insert_sorted create_pending create_pending_tx
    pending_booking insert_booking copy_rows has_row claim_idempotency_key claim_tx claim_pending
    claim_row key_taken confirm confirm_tx confirm_rows insert_payment payment_row has_payment run
    step catalogue find_booking update_booking find_event seat_exists sold paid_count holds_for
    acquire_payment_slot release_payment_slot release targets release_script lock_key lock_value
    reserved_key payment_slot_key lookup set_if_free contains text_eq
pay-Bought_example =
    pay-Bought locker 14 quiet (λ n s. ([], refl)) 1 (codes "key-of-user-1") after_hold receipt
      (run-IsConsistent (creates 14 1000 1 3 (4 ∷ 5 ∷ []) 300 (codes "t") 601000 ∷ []) hall
        (catalogue-IsConsistent (1 ∷ 2 ∷ []) venues events seats))
      refl

length-charges-pay_example :
    length (pay locker quiet 1 14 (codes "key-of-user-1") after_hold).1.shared.charges
    ≤ length (after_hold.shared).charges + 1
length-charges-pay_example =
    length-charges-pay locker quiet (λ n s. refl) 1 14 (codes "key-of-user-1") after_hold
