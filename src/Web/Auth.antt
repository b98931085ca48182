-- ===== src/Web/Auth.antt =====
-- backend/internal/middleware/middleware.go: the bearer token and the three checks of identity.
-- A context with an identity is the request with its user and role set.
use seatsync.Prelude.{
  ℕ, not, ◌||◌, Option, none, some, Text, Result, ok, err, text_eq, codes, cut, trim_space,
  is_empty, equal_fold, if◌then◌else◌,
}
use seatsync.Models.{role_admin}
use seatsync.Httpx.{ApiError, unauthorized, forbidden}
use seatsync.Locks.Uuids.{UuidCodec}
use seatsync.Accounts.Tokens.{Claims, TokenError, token_invalid, token_expired, claims_user_id}
use seatsync.Web.Http.{
  Request, Response, Handler, write_error, is_websocket_upgrade, authentication_required,
  set_header,
}

abbrev pub malformed_header : ApiError
malformed_header = unauthorized (codes "Authorization header must be of the form: Bearer <token>.")

abbrev pub token_has_expired : ApiError
token_has_expired = unauthorized (codes "Access token has expired.")

abbrev pub token_is_invalid : ApiError
token_is_invalid = unauthorized (codes "Access token is invalid.")

abbrev pub admin_required : ApiError
admin_required = forbidden (codes "This action requires an administrator account.")

-- The scheme and the token of the header, if it has a space.
abbrev pub credential : Option (Text × Text) → Result ApiError Text
credential none = err malformed_header
credential (some (scheme, token)) =
    if not (equal_fold scheme (codes "Bearer")) || is_empty (trim_space token)
    then err malformed_header
    else ok (trim_space token)

abbrev pub query_token : Request → Text
query_token r = trim_space (r.query (codes "access_token"))

unfoldable pub bearer_token : Request → Result ApiError Text
bearer_token r =
    let header = r.header (codes "Authorization") in
    if not (is_empty header)
    then credential (cut b' ' header)
    else if not (is_websocket_upgrade r) || is_empty (query_token r)
    then err authentication_required
    else ok (query_token r)

-- `Authenticator.ParseAccessToken`, at the time of the request.
abbrev pub Authenticator : Type 0
Authenticator = Text → Result TokenError Claims

abbrev pub verified : Result TokenError Claims → Result ApiError Claims
verified (ok c) = ok c
verified (err token_expired) = err token_has_expired
verified (err token_invalid) = err token_is_invalid

abbrev pub verify_with : Authenticator → Result ApiError Text → Result ApiError Claims
verify_with a (ok raw) = verified (a raw)
verify_with a (err e) = err e

unfoldable pub claims_from_request : Authenticator → Request → Result ApiError Claims
claims_from_request a r = verify_with a (bearer_token r)

abbrev pub with_identity : Request → ℕ → Text → Request
with_identity r user_id role = record r { user_id = some user_id; role = some role }

-- The identity that the claims give, or the error.
abbrev pub named : Claims → Option ℕ → Result ApiError (ℕ × Text)
named c none = err token_is_invalid
named c (some user_id) = ok (user_id, c.role)

abbrev pub identity : UuidCodec → Result ApiError Claims → Result ApiError (ℕ × Text)
identity U (err e) = err e
identity U (ok c) = named c (claims_user_id U c)

-- What follows from an identity, and from the lack of one.
abbrev pub by_identity {ℓ} :
    {A : Type ℓ} → Result ApiError (ℕ × Text) → (ApiError → A) → (ℕ → Text → A) → A
by_identity (err e) refuse run = refuse e
by_identity (ok (user_id, role)) refuse run = run user_id role

module _ {ℓ} {S : Type 0} {Out : Type ℓ} where
  unfoldable pub require_auth : UuidCodec → Authenticator → Handler S Out → Handler S Out
  require_auth U a next r hs s =
      by_identity (identity U (claims_from_request a r)) (λ e. (write_error hs e, s))
        (λ user_id role. next (with_identity r user_id role) hs s)

  unfoldable pub optional_auth : UuidCodec → Authenticator → Handler S Out → Handler S Out
  optional_auth U a next r hs s =
      by_identity (identity U (claims_from_request a r)) (λ e. next r hs s)
        (λ user_id role. next (with_identity r user_id role) hs s)

  abbrev pub admin_only :
      Option Text → (Response Out × S) → (ApiError → Response Out × S) → Response Out × S
  admin_only none run refuse = refuse authentication_required
  admin_only (some role) run refuse = if text_eq role role_admin then run else refuse admin_required

  unfoldable pub require_admin : Handler S Out → Handler S Out
  require_admin next r hs s = admin_only r.role (next r hs s) (λ e. (write_error hs e, s))

  -- `RequestID`: the fresh id is used where the caller sends none.
  unfoldable pub with_request_id : Text → Handler S Out → Handler S Out
  with_request_id fresh next r hs s =
      let sent = r.header (codes "X-Request-ID") in
      let id = if is_empty sent then fresh else sent in
      next (record r { request_id = id }) (set_header (codes "X-Request-ID") id hs) s
