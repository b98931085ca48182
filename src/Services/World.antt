-- ===== src/Services/World.antt =====
-- How a service of backend/internal/services runs: a chain of calls to Postgres, to the lock store
-- and to the payment provider. Between two calls anything may happen to the shared state, and a call
-- may fail; a schedule says what does.
use seatsync.Prelude.{
  ℕ, suc, Bool, true, false, Option, none, some, List, ◌∷◌, Text, Result, ok, err,
}
use seatsync.Models.{SeatUpdate, SeatHold}
use seatsync.Httpx.{ApiError, internal}
use seatsync.Db.{Db}

-- `SeatLocker`, `HoldReader` and `PaymentMutex`: the operations that the services use, on a state of their own.
-- Each takes the store's time, `acquire` also the caller's clock.
pub record SeatLocker : Type 1 where
  pub Locks : Type 0
  pub Failure : Type 0
  -- The seats that the failure names, if it is that seats were unavailable.
  pub unavailable : Failure → Option (List ℕ)
  pub acquire : ℕ → ℕ → ℕ → ℕ → Text → List ℕ → Locks → Result Failure ℕ × Locks
  pub release : ℕ → ℕ → ℕ → Text → List ℕ → Locks → ℕ × Locks
  pub holds_for : ℕ → ℕ → ℕ → Text → List ℕ → Locks → List ℕ
  -- The live holds of an event, by seat.
  pub held_seats : ℕ → ℕ → ℕ → Locks → List (ℕ × SeatHold) × Locks
  pub acquire_payment_slot : ℕ → ℕ → ℕ → Locks → Bool × Locks
  pub release_payment_slot : ℕ → ℕ → Locks → Locks

-- One broadcast: an event and the seats that changed.
pub record Broadcast : Type 0 where
  pub event_id : ℕ
  pub updates : List SeatUpdate

-- One call of the provider, with the amount and the key.
pub record Charge : Type 0 where
  pub amount : ℕ
  pub idempotency_key : Text

-- A call is served, or it fails before it takes effect, or after (the answer is lost).
pub data Fate : Type 0 where
  served lost answer_lost : Fate

-- A part of a service: an answer or an API error, and the state after it.
abbrev pub Service {ℓ} : Type 0 → Type ℓ → Type ℓ
Service S A = S → Result ApiError A × S

abbrev pub continue {ℓ κ} :
    {S : Type 0} {A : Type ℓ} {B : Type κ}
    → (A → Service S B)
    → Result ApiError A × S
    → Result ApiError B × S
continue f (ok a, w) = f a w
continue f (err e, w) = (err e, w)

infixl 5 ◌>>=◌ ◌>>◌
unfoldable pub ◌>>=◌ {ℓ κ} :
    {S : Type 0} {A : Type ℓ} {B : Type κ} → Service S A → (A → Service S B) → Service S B
◌>>=◌ m f w = continue f (m w)

abbrev pub ◌>>◌ {κ} : {S : Type 0} {B : Type κ} → Service S (Unit {0}) → Service S B → Service S B
m >> k = m >>= λ _. k

-- An answer that needs no call.
unfoldable pub lift {ℓ} : {S : Type 0} {A : Type ℓ} → Result ApiError A → Service S A
lift r w = (r, w)

unfoldable pub ensure : {S : Type 0} → Bool → ApiError → Service S (Unit {0})
ensure true e w = (ok tt, w)
ensure false e w = (err e, w)

abbrev pub keep_result {ℓ κ} :
    {S : Type 0} {A : Type ℓ} {B : Type κ}
    → Result ApiError A
    → Result ApiError B × S
    → Result ApiError A × S
keep_result r (ignored, w) = (r, w)

abbrev pub then_cleanup {ℓ κ} :
    {S : Type 0} {A : Type ℓ} {B : Type κ}
    → Service S B
    → Result ApiError A × S
    → Result ApiError A × S
then_cleanup cleanup (r, w) = keep_result r (cleanup w)

-- `defer`: the cleanup runs whatever the body returns, and its own result is dropped.
unfoldable pub deferring {ℓ κ} :
    {S : Type 0} {A : Type ℓ} {B : Type κ} → Service S B → Service S A → Service S A
deferring cleanup body w = then_cleanup cleanup (body w)

-- A call of which the caller logs a failure and goes on.
unfoldable pub quietly {ℓ} : {S : Type 0} {A : Type ℓ} → Service S A → Service S (Unit {0})
quietly m w = keep_result (ok tt) (m w)

abbrev pub or_internal {ℓ} : {A : Type ℓ} → Option A → Result ApiError A
or_internal none = err internal
or_internal (some a) = ok a

-- A repository's answer, its error turned into an API error.
abbrev pub with_errors {ℓ κ} :
    {E : Type κ} {A : Type ℓ} → (E → ApiError) → Result E A → Result ApiError A
with_errors f (ok a) = ok a
with_errors f (err e) = err (f e)

-- The answer of the provider's `Charge`: accepted or declined.
pub record ChargeResult : Type 0 where
  pub succeeded : Bool
  pub reference : Text
  pub decline_reason : Text

module _ (L : SeatLocker) where
  pub record Shared : Type 0 where
    pub db : Db
    pub locks : L.Locks
    pub sent : List Broadcast
    pub charges : List Charge

  -- What surrounds a call: what others do before it, its fate, the clocks (the caller's and the
  -- store's), the id that the database gives out, the provider's decision, the booking rows
  -- that other transactions have locked, and whether a lock check inside a transaction
  -- reaches the store.
  pub record Moment : Type 0 where
    pub before : Shared → Shared
    pub fate : Fate
    pub clock : ℕ
    pub now : ℕ
    pub fresh_id : ℕ
    pub fresh_token : Text
    pub reaches_store : Bool
    pub decision : ChargeResult
    pub row_locks : ℕ → Bool

  pub record World : Type 0 where
    pub shared : Shared
    pub calls : ℕ

  abbrev pub Schedule : Type 0
  Schedule = ℕ → Moment

  -- What a call does where it is served.
  abbrev pub Effect {ℓ} : Type ℓ → Type ℓ
  Effect A = Moment → Shared → A × Shared

  abbrev pub fated {ℓ} : {A : Type ℓ} → Fate → A × Shared → Shared → Option A × Shared
  fated served (a, s') s = (some a, s')
  fated lost (a, s') s = (none, s)
  fated answer_lost (a, s') s = (none, s')

  abbrev pub shared_after {ℓ} : {A : Type ℓ} → ℕ → Option A × Shared → Option A × World
  shared_after n (o, s) = (o, record { shared = s; calls = n })

  -- The call itself; `none` is a failure to reach the other side or to hear from it.
  unfoldable pub call {ℓ} : {A : Type ℓ} → Schedule → Effect A → World → Option A × World
  call env effect w =
      let m = env w.calls in
      let s = m.before w.shared in shared_after (suc w.calls) (fated m.fate (effect m s) s)

  -- A call whose failure is an internal error.
  abbrev pub answered {ℓ} : {A : Type ℓ} → Option A × World → Result ApiError A × World
  answered (o, w) = (or_internal o, w)

  unfoldable pub ask {ℓ} : {A : Type ℓ} → Schedule → Effect A → Service World A
  unfolding call
  ask env effect w = answered (call env effect w)

  -- A read, and a write, of the database.
  abbrev pub reading {ℓ} : {A : Type ℓ} → (Db → A) → Effect A
  reading f m s = (f s.db, s)

  abbrev pub stored {ℓ} : {A : Type ℓ} → Shared → A × Db → A × Shared
  stored s (a, db) = (a, record s { db = db })

  abbrev pub writing {ℓ} : {A : Type ℓ} → (Moment → Db → A × Db) → Effect A
  writing f m s = stored s (f m s.db)

  abbrev pub relocked {ℓ} : {A : Type ℓ} → Shared → A × L.Locks → A × Shared
  relocked s (a, l) = (a, record s { locks = l })

  abbrev pub locking {ℓ} : {A : Type ℓ} → (Moment → L.Locks → A × L.Locks) → Effect A
  locking f m s = relocked s (f m s.locks)

  -- A message to the subscribers, which the caller does not wait for.
  unfoldable pub tell : Broadcast → Service World (Unit {0})
  tell b w = (ok tt, record w { shared = record (w.shared) { sent = b ∷ (w.shared).sent } })

  -- A call whose failure the caller handles itself.
  abbrev pub settled {ℓ} : {A : Type ℓ} → Option A × World → Result ApiError (Option A) × World
  settled (o, w) = (ok o, w)

  unfoldable pub attempt {ℓ} : {A : Type ℓ} → Schedule → Effect A → Service World (Option A)
  unfolding call
  attempt env effect w = settled (call env effect w)

  -- `time.Now()` and `uuid.NewString()` where the caller reads them.
  unfoldable pub clock_reading : Schedule → Service World ℕ
  clock_reading env w = (ok (env w.calls).clock, w)

  unfoldable pub new_token : Schedule → Service World Text
  new_token env w = (ok (env w.calls).fresh_token, w)
