-- ===== src/Accounts/World.antt =====
-- How the account service runs: a chain of calls to Postgres, each of which may fail, with others
-- at work between two of them; a schedule says what happens.
use seatsync.Prelude.{ℕ, suc, Option, Text, Result, ok, err}
use seatsync.Httpx.{ApiError, internal}
use seatsync.Services.World.{Fate, served, lost, answer_lost, Service}
use seatsync.Accounts.Rows.{Tables}

-- What surrounds a call, and what the service reads there: the caller's clock and the database's,
-- the fresh id of a row, the id of a token, the random bytes (if the system gives any), and the
-- salt of a hash.
pub record Moment : Type 0 where
  pub before : Tables → Tables
  pub fate : Fate
  pub clock : ℕ
  pub now : ℕ
  pub fresh_id : ℕ
  pub token_id : Text
  pub random : Option Text
  pub salt : Text

pub record World : Type 0 where
  pub tables : Tables
  pub calls : ℕ

abbrev pub Schedule : Type 0
Schedule = ℕ → Moment

abbrev pub Effect {ℓ} : Type ℓ → Type ℓ
Effect A = Moment → Tables → A × Tables

abbrev pub reading {ℓ} : {A : Type ℓ} → (Tables → A) → Effect A
reading f m ts = (f ts, ts)

abbrev pub settle {ℓ} : {A : Type ℓ} → ℕ → Fate → A × Tables → Tables → Result ApiError A × World
settle n served (a, ts') ts = (ok a, record { tables = ts'; calls = n })
settle n lost (a, ts') ts = (err internal, record { tables = ts; calls = n })
settle n answer_lost (a, ts') ts = (err internal, record { tables = ts'; calls = n })

-- A call whose failure is an internal error.
unfoldable pub ask {ℓ} : {A : Type ℓ} → Schedule → Effect A → Service World A
ask env effect w =
    let m = env w.calls in
    let ts = m.before w.tables in settle (suc w.calls) m.fate (effect m ts) ts

-- What the service reads of its surroundings without a call.
unfoldable pub look {ℓ} : {A : Type ℓ} → Schedule → (Moment → A) → Service World A
look env f w = (ok (f (env w.calls)), w)
