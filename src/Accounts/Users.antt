-- ===== src/Accounts/Users.antt =====
-- backend/internal/repos/user.go. The fresh id and the time are Postgres'.
use seatsync.Prelude.{ℕ, not, ◌∷◌, Text, Result, ok, err, ◌>>◌, guard}
use seatsync.Models.{User}
use seatsync.Repos.{PgError, Error, unique_violation, users_pkey, uq_users_email, classified}
use seatsync.Repos.Booking.{is_some, or_no_rows}
use seatsync.Accounts.Rows.{Tables, find_user, find_email}

-- `INSERT INTO users …` with the primary key and the index on the lowered email.
unfoldable pub insert_user : (Text → Text) → User → Tables → Result PgError (User × Tables)
insert_user lower u ts = do
  guard (not (is_some (find_user u.id ts.users))) (unique_violation users_pkey)
  guard (not (is_some (find_email lower u.email ts.users))) (unique_violation uq_users_email)
  ok (u, record ts { users = u ∷ ts.users })

abbrev pub committed {ℓ} :
    {A : Type ℓ} → Tables → Result PgError (A × Tables) → Result Error A × Tables
committed ts (ok (a, ts')) = (ok a, ts')
committed ts (err e) = (classified (err e), ts)

-- The fresh id, the time, the email, the hash, the name and the role.
unfoldable pub create_user :
    (Text → Text) → ℕ → ℕ → Text → Text → Text → Text → Tables → Result Error User × Tables
create_user lower id now email password_hash name role ts = committed ts (
    insert_user lower
      (record {
        id = id;
        email = email;
        password_hash = password_hash;
        name = name;
        role = role;
        created_at = now;
      })
      ts)

unfoldable pub user_by_email : (Text → Text) → Text → Tables → Result Error User
user_by_email lower email ts = classified (or_no_rows (find_email lower email ts.users))

unfoldable pub user_by_id : ℕ → Tables → Result Error User
user_by_id id ts = classified (or_no_rows (find_user id ts.users))
