-- ===== src/Tests/AccountRuns.antt =====
-- A user who signs up, signs in and refreshes, with stand-ins for the packages: a hash is the text
-- with a byte before it.
use seatsync.Prelude.{
  zero, suc, ◌+◌, ◌≡◌, ◌≢◌, refl, true, Option, none, some, [], ◌∷◌, map, Text, ok, text_eq,
  text_eq_refl, subst, trim_space, trim_left, codes, length, lower_byte,
}
use seatsync.Models.{User, role_user}
use seatsync.Services.World.{served, ◌>>=◌, lift, ensure}
use seatsync.Accounts.Tokens.{new_access_token}
use seatsync.Accounts.Rows.{TokenRow, Tables, find_user, find_email, find_hash, has_token_id}
use seatsync.Accounts.Users.{create_user, insert_user, user_by_id}
use seatsync.Accounts.RefreshTokens.{create_token, insert_token, token_by_hash, revoke, revoke_rows}
use seatsync.Accounts.World.{World, Schedule, ask, look}
use seatsync.Accounts.Service.{
  Library, AuthResult, issue_tokens, sign_in, register, login, rotate, refresh_stored, refresh,
  validate_email, validate_password,
}
use seatsync.Accounts.Keeps.{logs_in, refreshes, logs_out, serve_all}
use seatsync.Accounts.Rotation.{refresh_once, refresh-reused, NoneLive}
use seatsync.Accounts.Invariant.{IsSound, serve_all-IsSound}
use seatsync.Accounts.Validation.{Acceptable, register-Acceptable}
use seatsync.Accounts.RoundTrip.{SignsIn, login-register}
use seatsync.Tests.Stores.{letters}
use seatsync.Tests.WebRuns.{plain_jwt, quarter_hour, sign_subject}

abbrev toy : Library
toy = record {
  generate_from_password = λ cost salt p. some (1 ∷ p);
  compare_hash_and_password = λ h p. text_eq h (1 ∷ p);
  sum256 = λ x. 2 ∷ x;
  encode_to_string = λ x. x;
  parse_address = λ x. some x;
  rune_count = length;
  lower = map lower_byte;
}

-- Every call is served and no one else is about; the n-th row gets the id n.
abbrev quiet : Schedule
quiet n = record {
  before = λ ts. ts;
  fate = served;
  clock = 5000;
  now = 5001;
  fresh_id = n + 3;
  token_id = codes "i";
  random = some ((n + 100) ∷ []);
  salt = [];
}

abbrev ann : User
ann = record {
  id = 7;
  email = codes "ann@x";
  password_hash = 1 ∷ codes "password";
  name = codes "Ann";
  role = role_user;
  created_at = 0;
}

abbrev live_token : TokenRow
live_token = record {
  id = 1;
  user_id = 7;
  token_hash = 2 ∷ codes "tok";
  expires_at = 9000;
  revoked_at = none;
}

abbrev other_token : TokenRow
other_token = record {
  id = 2;
  user_id = 7;
  token_hash = 2 ∷ codes "other";
  expires_at = 9000;
  revoked_at = some 3;
}

abbrev signed_in : World
signed_in = record {
  tables = record { users = ann ∷ []; tokens = live_token ∷ other_token ∷ [] };
  calls = 0;
}

abbrev new_token : TokenRow
new_token = record {
  id = 6;
  user_id = 7;
  token_hash = 2 ∷ 103 ∷ [];
  expires_at = 2592005000;
  revoked_at = none;
}

abbrev spent_token : TokenRow
spent_token = record live_token { revoked_at = some 5001 }

abbrev ann_refreshed : AuthResult
ann_refreshed = record {
  user = ann;
  tokens = record {
    access_token = 166 ∷ 105 ∷ 105 ∷ 1005 ∷ [];
    refresh_token = 103 ∷ [];
    expires_at = 905000;
    token_type = codes "Bearer";
  };
}

abbrev rotated : World
rotated = record {
  tables = record { users = ann ∷ []; tokens = new_token ∷ spent_token ∷ other_token ∷ [] };
  calls = 4;
}

refresh_runs :
    refresh toy letters plain_jwt quarter_hour quiet (codes " tok ") signed_in
    ≡ (ok ann_refreshed, rotated)
unfolding refresh refresh_stored rotate sign_in issue_tokens ◌>>=◌ lift ensure ask look trim_space
    trim_left token_by_hash find_hash user_by_id find_user revoke revoke_rows create_token
    insert_token has_token_id new_access_token sign_subject text_eq
refresh_runs = refl

refresh_once_example :
    (refresh toy letters plain_jwt quarter_hour quiet (codes " tok ") (
      serve_all toy letters plain_jwt quarter_hour quiet
        (logs_in (codes "ann@x") (codes "password") ∷ [])
        rotated)).0
    ≢ ok ann_refreshed
refresh_once_example =
    refresh_once toy letters plain_jwt quarter_hour quiet quiet quiet (codes " tok ")
      (logs_in (codes "ann@x") (codes "password") ∷ []) signed_in rotated ann_refreshed
      (record { known-kept = λ i n ts k. k; spent-kept = λ n ts k. k })
      (record { known-kept = λ i n ts k. k; spent-kept = λ n ts k. k })
      (record { known-kept = λ i n ts k. k; spent-kept = λ n ts k. k }) refresh_runs ann_refreshed

refresh-reused_example :
    NoneLive 7
      (refresh toy letters plain_jwt quarter_hour quiet (codes "other") signed_in).1.tables.tokens
unfolding trim_space trim_left find_hash text_eq
refresh-reused_example =
    (refresh-reused toy letters plain_jwt quarter_hour quiet (codes "other") signed_in other_token
        refl refl refl refl).1
      refl

-- Two requests that present one token at once: the second runs whole between the first's check
-- and its revocation, and both get credentials.
abbrev the_other : Tables → Tables
the_other ts =
    (refresh toy letters plain_jwt quarter_hour
      (λ n. record (quiet n) { fresh_id = n + 30; random = some (80 ∷ []) }) (codes "tok")
      (record { tables = ts; calls = 0 })).1.tables

abbrev racing : Schedule
racing zero = quiet zero
racing (suc zero) = quiet 1
racing (suc (suc zero)) = record (quiet 2) { before = the_other }
racing (suc (suc (suc n))) = quiet (n + 3)

both_exchange :
    (refresh toy letters plain_jwt quarter_hour racing (codes "tok") signed_in).0 ≡ ok ann_refreshed
unfolding refresh refresh_stored rotate sign_in issue_tokens ◌>>=◌ lift ensure ask look trim_space
    trim_left token_by_hash find_hash user_by_id find_user revoke revoke_rows create_token
    insert_token has_token_id new_access_token sign_subject text_eq
both_exchange = refl

serve_all-IsSound_example :
    IsSound
      (map lower_byte)
      (serve_all toy letters plain_jwt quarter_hour quiet
        (refreshes (codes "tok") ∷ logs_out (codes "other") ∷ [])
        signed_in).tables
unfolding find_user find_email find_hash has_token_id text_eq
serve_all-IsSound_example =
    serve_all-IsSound toy letters plain_jwt quarter_hour quiet
      (refreshes (codes "tok") ∷ logs_out (codes "other") ∷ []) signed_in (λ n ts s. s)
      (record {
        unique_users = (refl, refl, tt);
        unique_tokens = (refl, refl, (refl, refl, tt));
        owners = (refl, (refl, tt));
      })

abbrev bob : User
bob = record {
  id = 3;
  email = codes "Bob@x";
  password_hash = 1 ∷ codes "password";
  name = codes "Bob";
  role = role_user;
  created_at = 5001;
}

abbrev bob_signed_up : AuthResult
bob_signed_up = record {
  user = bob;
  tokens = record {
    access_token = 162 ∷ 105 ∷ 105 ∷ 1005 ∷ [];
    refresh_token = 101 ∷ [];
    expires_at = 905000;
    token_type = codes "Bearer";
  };
}

abbrev with_bob : World
with_bob = record {
  tables = record {
    users = bob ∷ ann ∷ [];
    tokens =
        record {
          id = 4;
          user_id = 3;
          token_hash = 2 ∷ 101 ∷ [];
          expires_at = 2592005000;
          revoked_at = none;
        }
        ∷ live_token
        ∷ other_token
        ∷ [];
  };
  calls = 2;
}

register_runs :
    register toy letters plain_jwt quarter_hour quiet 10
      (codes " Bob@x")
      (codes "password")
      (codes "Bob")
      signed_in
    ≡ (ok bob_signed_up, with_bob)
unfolding register validate_email validate_password sign_in issue_tokens ◌>>=◌ lift ensure ask look
    trim_space trim_left find_hash find_user find_email create_user insert_user create_token
    insert_token has_token_id new_access_token sign_subject text_eq
register_runs = refl

register-Acceptable_example : Acceptable toy (codes "Bob@x") (codes "password") (codes "Bob")
unfolding trim_space trim_left
register-Acceptable_example =
    register-Acceptable toy letters plain_jwt quarter_hour quiet 10 (codes " Bob@x")
      (codes "password") (codes "Bob") signed_in with_bob bob_signed_up register_runs

login-register_example :
    SignsIn bob
      (login toy letters plain_jwt quarter_hour quiet (codes " Bob@x") (codes "password") (
        serve_all toy letters plain_jwt quarter_hour quiet
          (refreshes (codes "tok") ∷ [])
          with_bob)).0
login-register_example =
    login-register toy letters plain_jwt quarter_hour quiet quiet quiet 10 (codes " Bob@x")
      (codes "password") (codes "Bob") (refreshes (codes "tok") ∷ []) signed_in with_bob
      bob_signed_up
      (λ cost salt p h e.
        subst (λ (x : Text). text_eq x (1 ∷ p) ≡ true) (some-eq e) (text_eq_refl (1 ∷ p)))
      (λ email u n ts h. h) (λ email u n ts h. h) (λ email u n ts h. h) register_runs
  where
    some-eq : {x y : Text} → ◌≡◌ {A = Option Text} (some x) (some y) → x ≡ y
    some-eq e = cc
