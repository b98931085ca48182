-- ===== src/Accounts/Rows.antt =====
-- The tables users and refresh_tokens of backend/migrations/000001_init.up.sql.
use seatsync.Prelude.{
  ℕ, Bool, false, ◌||◌, Option, none, some, List, [], ◌∷◌, Text, text_eq, ◌==◌, if◌then◌else◌,
}
use seatsync.Models.{User}

pub record TokenRow : Type 0 where
  pub id : ℕ
  pub user_id : ℕ
  pub token_hash : Text
  pub expires_at : ℕ
  pub revoked_at : Option ℕ

pub record Tables : Type 0 where
  pub users : List User
  pub tokens : List TokenRow

-- `WHERE id = $1`, and `WHERE lower(email) = lower($1)` with the database's `lower`.
unfoldable pub find_user : ℕ → List User → Option User
find_user i [] = none
find_user i (u ∷ us) = if u.id == i then some u else find_user i us

unfoldable pub find_email : (Text → Text) → Text → List User → Option User
find_email lower email [] = none
find_email lower email (u ∷ us) =
    if text_eq (lower u.email) (lower email) then some u else find_email lower email us

-- `WHERE token_hash = $1`
unfoldable pub find_hash : Text → List TokenRow → Option TokenRow
find_hash h [] = none
find_hash h (t ∷ ts) = if text_eq t.token_hash h then some t else find_hash h ts

unfoldable pub has_token_id : ℕ → List TokenRow → Bool
has_token_id i [] = false
has_token_id i (t ∷ ts) = t.id == i || has_token_id i ts
