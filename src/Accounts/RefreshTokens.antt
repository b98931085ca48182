-- ===== src/Accounts/RefreshTokens.antt =====
-- backend/internal/repos/refresh_token.go. The fresh id and the time `now()` are Postgres'.
use seatsync.Prelude.{
  ℕ, Bool, not, ◌&&◌, Option, none, some, List, [], ◌∷◌, Text, Result, ok, ◌>>◌, guard, ltb, leb,
  ◌==◌, length, keep, ◌-◌, if◌then◌else◌,
}
use seatsync.Repos.{
  PgError, Error, unique_violation, refresh_tokens_pkey, uq_refresh_tokens_hash,
  foreign_key_violation, classified,
}
use seatsync.Repos.Booking.{is_some, or_no_rows}
use seatsync.Accounts.Rows.{TokenRow, Tables, find_user, find_hash, has_token_id}
use seatsync.Accounts.Users.{committed}

-- `RefreshToken`, what is read of a row, and `Active` at the caller's clock.
pub record RefreshToken : Type 0 where
  pub id : ℕ
  pub user_id : ℕ
  pub expires_at : ℕ
  pub revoked_at : Option ℕ

abbrev pub is_active : ℕ → RefreshToken → Bool
is_active clock t = not (is_some t.revoked_at) && ltb clock t.expires_at

-- `INSERT INTO refresh_tokens …`: the primary key, the index on the hash, the user's key.
unfoldable pub insert_token : TokenRow → Tables → Result PgError (Unit {0} × Tables)
insert_token t ts = do
  guard (not (has_token_id t.id ts.tokens)) (unique_violation refresh_tokens_pkey)
  guard (not (is_some (find_hash t.token_hash ts.tokens))) (unique_violation uq_refresh_tokens_hash)
  guard (is_some (find_user t.user_id ts.users)) foreign_key_violation
  ok (tt, record ts { tokens = t ∷ ts.tokens })

unfoldable pub create_token : ℕ → ℕ → Text → ℕ → Tables → Result Error (Unit {0}) × Tables
create_token id user_id hash expires_at ts = committed ts (
    insert_token
      (record {
        id = id;
        user_id = user_id;
        token_hash = hash;
        expires_at = expires_at;
        revoked_at = none;
      })
      ts)

abbrev pub read_token : TokenRow → RefreshToken
read_token t = record {
  id = t.id;
  user_id = t.user_id;
  expires_at = t.expires_at;
  revoked_at = t.revoked_at;
}

abbrev pub read_row : Option TokenRow → Option RefreshToken
read_row none = none
read_row (some t) = some (read_token t)

unfoldable pub token_by_hash : Text → Tables → Result Error RefreshToken
token_by_hash hash ts = classified (or_no_rows (read_row (find_hash hash ts.tokens)))

-- `SET revoked_at = now() WHERE … AND revoked_at IS NULL`, on the rows that pass the test.
abbrev pub revoke_row : ℕ → TokenRow → TokenRow
revoke_row now t = if is_some t.revoked_at then t else record t { revoked_at = some now }

unfoldable pub revoke_rows : (TokenRow → Bool) → ℕ → List TokenRow → List TokenRow
revoke_rows test now [] = []
revoke_rows test now (t ∷ ts) = (if test t then revoke_row now t else t) ∷ revoke_rows test now ts

abbrev pub has_id : ℕ → TokenRow → Bool
has_id id t = t.id == id

abbrev pub is_of : ℕ → TokenRow → Bool
is_of user_id t = t.user_id == user_id

unfoldable pub revoke : ℕ → ℕ → Tables → Unit {0} × Tables
revoke id now ts = (tt, record ts { tokens = revoke_rows (has_id id) now ts.tokens })

unfoldable pub revoke_all_for_user : ℕ → ℕ → Tables → Unit {0} × Tables
revoke_all_for_user user_id now ts =
    (tt, record ts { tokens = revoke_rows (is_of user_id) now ts.tokens })

-- How many rows went.
unfoldable pub delete_expired : ℕ → Tables → ℕ × Tables
delete_expired now ts =
    let rest = keep (λ (t : TokenRow). leb now t.expires_at) ts.tokens in
    (length ts.tokens - length rest, record ts { tokens = rest })
