-- ===== src/Accounts/Service.antt =====
-- `AuthService` of backend/internal/services/auth.go. What is only logged is left out, and so is the
-- comparison with a dummy hash, which only takes time.
use seatsync.Prelude.{
  ℕ, ◌+◌, Bool, false, not, ◌||◌, Option, none, some, ◌++◌, Text, Result, ok, err, text_eq, ltb,
  length, is_empty, trim_space, codes, decimal, if◌then◌else◌,
}
use seatsync.Models.{User, role_user}
use seatsync.Httpx.{
  ApiError, validation, unauthorized, not_found, conflict, internal, code_conflict,
}
use seatsync.Repos.{Error}
use seatsync.Repos
use seatsync.Repos.Booking.{is_some}
use seatsync.Services.Holds.{missing_as}
use seatsync.Services.World.{Service, ◌>>=◌, ◌>>◌, lift, ensure, quietly, or_internal, with_errors}
use seatsync.Locks.Uuids.{UuidCodec}
use seatsync.Accounts.Tokens.{Jwt, TokenIssuer, new_access_token}
use seatsync.Accounts.Users.{create_user, user_by_email, user_by_id}
use seatsync.Accounts.RefreshTokens.{
  RefreshToken, is_active, create_token, token_by_hash, revoke, revoke_all_for_user,
}
use seatsync.Accounts.World.{World, Schedule, reading, ask, look}

-- The packages bcrypt, sha256, base64, net/mail and unicode/utf8, and the database's `lower`.
pub record Library : Type 0 where
  -- The cost, the salt and the password.
  pub generate_from_password : ℕ → Text → Text → Option Text
  pub compare_hash_and_password : Text → Text → Bool
  pub sum256 : Text → Text
  pub encode_to_string : Text → Text
  -- The address of a parsed mailbox.
  pub parse_address : Text → Option Text
  pub rune_count : Text → ℕ
  pub lower : Text → Text

pub record TokenPair : Type 0 where
  pub access_token : Text
  pub refresh_token : Text
  pub expires_at : ℕ
  pub token_type : Text

pub record AuthResult : Type 0 where
  pub user : User
  pub tokens : TokenPair

abbrev pub min_password_length : ℕ
min_password_length = 8

abbrev pub max_password_bytes : ℕ
max_password_bytes = 72

abbrev pub max_name_length : ℕ
max_name_length = 100

abbrev pub max_email_length : ℕ
max_email_length = 254

abbrev pub bad_credentials : ApiError
bad_credentials = unauthorized (codes "Email or password is incorrect.")

abbrev pub bad_refresh_token : ApiError
bad_refresh_token = unauthorized (codes "Refresh token is invalid or has expired.")

abbrev pub refresh_token_required : ApiError
refresh_token_required = unauthorized (codes "Refresh token is required.")

abbrev pub name_required : ApiError
name_required = validation (codes "Name is required.")

abbrev pub at_most_characters : Text → ℕ → ApiError
at_most_characters what n =
    validation (what ++ codes " must be at most " ++ decimal n ++ codes " characters.")

abbrev pub invalid_email : ApiError
invalid_email = validation (codes "Email is not a valid address.")

-- `err != nil || addr.Address != email`
abbrev pub is_address : Text → Option Text → Bool
is_address email none = false
is_address email (some address) = text_eq address email

-- A duplicate key is a conflict, any other error a 500.
abbrev pub account_exists : ApiError
account_exists = conflict code_conflict (codes "An account with that email already exists.")

abbrev pub duplicate_as : ApiError → Error → ApiError
duplicate_as e Repos.Error.duplicate_key = e
duplicate_as e _ = internal

abbrev pub account_not_found : ApiError
account_not_found = not_found (codes "Account not found.")

abbrev pub always_internal : Error → ApiError
always_internal e = internal

module _ (lib : Library) where
  unfoldable pub validate_email : Text → Result ApiError (Unit {0})
  validate_email email =
      if is_empty email
      then err (validation (codes "Email is required."))
      else if ltb max_email_length (length email)
      then err (at_most_characters (codes "Email") max_email_length)
      else if is_address email (lib.parse_address email)
      then ok tt
      else err invalid_email

  unfoldable pub validate_password : Text → Result ApiError (Unit {0})
  validate_password password =
      if is_empty password
      then err (validation (codes "Password is required."))
      else if ltb (lib.rune_count password) min_password_length
      then err (
          validation (
            codes "Password must be at least "
            ++ decimal min_password_length
            ++ codes " characters."))
      else if ltb max_password_bytes (length password)
      then err (
          validation
            (codes "Password must be at most " ++ decimal max_password_bytes ++ codes " bytes."))
      else ok tt

  -- `HashRefreshToken`
  abbrev pub hash_refresh_token : Text → Text
  hash_refresh_token token = lib.sum256 token

  -- `NewRefreshToken`, from the random bytes: the token, its hash and its expiry.
  abbrev pub new_refresh_token : ℕ → ℕ → Option Text → Option (Text × Text × ℕ)
  new_refresh_token refresh_ttl clock none = none
  new_refresh_token refresh_ttl clock (some bytes) =
      let token = lib.encode_to_string bytes in
      some (token, hash_refresh_token token, clock + refresh_ttl)

  module _ (U : UuidCodec) (J : Jwt) (t : TokenIssuer) (env : Schedule) where
    unfoldable pub issue_tokens : User → Service World TokenPair
    issue_tokens user = do
      signed ← look env (λ m. new_access_token U J t m.clock m.token_id user.id user.role)
      (access_token, expires_at) ← lift (or_internal signed)
      fresh ← look env (λ m. new_refresh_token t.refresh_ttl m.clock m.random)
      (refresh_token, hash, refresh_expiry) ← lift (or_internal fresh)
      stored ← ask env (λ m. create_token m.fresh_id user.id hash refresh_expiry)
      done ← lift (with_errors always_internal stored)
      lift (
          ok (record {
            access_token = access_token;
            refresh_token = refresh_token;
            expires_at = expires_at;
            token_type = codes "Bearer";
          }))

    -- The user with fresh credentials.
    unfoldable pub sign_in : User → Service World AuthResult
    sign_in user = do
      tokens ← issue_tokens user
      lift (ok (record { user = user; tokens = tokens }))

    unfoldable pub register : ℕ → Text → Text → Text → Service World AuthResult
    register cost email' password name' = do
      let email = trim_space email'
      let name = trim_space name'
      lift (validate_email email)
      lift (validate_password password)
      ensure (not (is_empty name)) name_required
      ensure (not (ltb max_name_length (lib.rune_count name)))
          (at_most_characters (codes "Name") max_name_length)
      hashed ← look env (λ m. lib.generate_from_password cost m.salt password)
      hash ← lift (or_internal hashed)
      created ← ask env (λ m. create_user lib.lower m.fresh_id m.now email hash name role_user)
      user ← lift (with_errors (duplicate_as account_exists) created)
      sign_in user

    unfoldable pub login : Text → Text → Service World AuthResult
    login email' password = do
      let email = trim_space email'
      ensure (not (is_empty email || is_empty password)) bad_credentials
      found ← ask env (reading (user_by_email lib.lower email))
      user ← lift (with_errors (missing_as bad_credentials) found)
      ensure (lib.compare_hash_and_password user.password_hash password) bad_credentials
      sign_in user

    -- A token that was already spent: every session of its user ends.
    unfoldable pub end_sessions : ℕ → Service World AuthResult
    end_sessions user_id = do
      quietly (ask env (λ m. revoke_all_for_user user_id m.now))
      lift (err bad_refresh_token)

    -- A token that was not spent when it was read.
    unfoldable pub rotate : RefreshToken → Service World AuthResult
    rotate stored = do
      clock ← look env (λ m. m.clock)
      ensure (is_active clock stored) bad_refresh_token
      found ← ask env (reading (user_by_id stored.user_id))
      user ← lift (with_errors (missing_as bad_refresh_token) found)
      done ← ask env (λ m. revoke stored.id m.now)
      sign_in user

    unfoldable pub refresh_stored : RefreshToken → Service World AuthResult
    refresh_stored stored =
        if is_some stored.revoked_at then end_sessions stored.user_id else rotate stored

    unfoldable pub refresh : Text → Service World AuthResult
    refresh refresh_token' = do
      let refresh_token = trim_space refresh_token'
      ensure (not (is_empty refresh_token)) refresh_token_required
      found ← ask env (reading (token_by_hash (hash_refresh_token refresh_token)))
      stored ← lift (with_errors (missing_as bad_refresh_token) found)
      refresh_stored stored

    -- A missing token is no error.
    unfoldable pub revoke_found : Result Error RefreshToken → Service World (Unit {0})
    revoke_found (ok stored) = ask env (λ m. revoke stored.id m.now)
    revoke_found (err Repos.Error.not_found) = lift (ok tt)
    revoke_found (err e) = lift (err internal)

    unfoldable pub logout_token : Text → Service World (Unit {0})
    logout_token refresh_token = do
      found ← ask env (reading (token_by_hash (hash_refresh_token refresh_token)))
      revoke_found found

    -- The token is hashed as it was sent, not trimmed.
    unfoldable pub logout : Text → Service World (Unit {0})
    logout refresh_token =
        if is_empty (trim_space refresh_token) then lift (ok tt) else logout_token refresh_token

    unfoldable pub current_user : ℕ → Service World User
    current_user user_id = do
      found ← ask env (reading (user_by_id user_id))
      lift (with_errors (missing_as account_not_found) found)
