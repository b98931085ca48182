-- ===== src/Locks/Uuids.antt =====
-- The package google/uuid, as far as backend/internal/locks/locks.go uses it.
use seatsync.Prelude.{ℕ, ◌≡◌, false, Option, some, Text, contains}

-- `String` and `Parse`: parsing gives the printed id back, and a printed id has no colon.
pub record UuidCodec : Type 0 where
  pub to_text : ℕ → Text
  pub parse : Text → Option ℕ
  pub parse-to_text : (u : ℕ) → parse (to_text u) ≡ some u
  pub no_colon : (u : ℕ) → contains (to_text u) b':' ≡ false
