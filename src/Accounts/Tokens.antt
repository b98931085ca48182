-- ===== src/Accounts/Tokens.antt =====
-- backend/internal/auth/tokens.go: access tokens, signed and verified by the package golang-jwt,
-- and opaque refresh tokens. A time is in milliseconds; a date inside a token is in seconds.
use seatsync.Prelude.{
  ℕ, ◌+◌, ◌*◌, ◌/◌, ◌≤◌, ◌≡◌, Option, none, some, Text, Result, ok, err, ltb, codes, trim_space,
  is_empty, false, if◌then◌else◌,
}
use seatsync.Locks.Uuids.{UuidCodec}

pub record Claims : Type 0 where
  pub subject : Text
  pub issuer : Text
  pub issued_at : ℕ
  pub not_before : ℕ
  pub expires_at : ℕ
  pub id : Text
  pub role : Text

pub data JwtError : Type 0 where
  jwt_expired jwt_other : JwtError

-- The package's signing with HS256, and its parser that takes only that method and the issuer.
pub record Jwt : Type 0 where
  pub sign : Text → Claims → Option Text
  pub parse_with_claims : Text → Text → ℕ → Text → Result JwtError Claims
  pub parse-sign :
      (secret : Text) (c : Claims) (now : ℕ) (raw : Text)
      → sign secret c ≡ some raw
      → 1000 * c.not_before ≤ now
      → parse_with_claims secret c.issuer now raw
        ≡ (if ltb now (1000 * c.expires_at) then ok c else err jwt_expired)
  -- A signed token is not empty and has no space around it.
  pub sign-trimmed :
      (secret : Text) (c : Claims) (raw : Text)
      → sign secret c ≡ some raw
      → (trim_space raw ≡ raw) × (is_empty raw ≡ false)

pub data TokenError : Type 0 where
  token_invalid token_expired : TokenError

abbrev pub token_issuer : Text
token_issuer = codes "seatsync"

pub record TokenIssuer : Type 0 where
  pub secret : Text
  pub access_ttl : ℕ
  pub refresh_ttl : ℕ

-- `jwt.NewNumericDate`, which drops what is below a second.
abbrev pub numeric_date : ℕ → ℕ
numeric_date time = time / 1000

abbrev pub claims_parse : Result JwtError Claims → Result TokenError Claims
claims_parse (ok c) = ok c
claims_parse (err jwt_expired) = err token_expired
claims_parse (err jwt_other) = err token_invalid

abbrev pub with_expiry : ℕ → Option Text → Option (Text × ℕ)
with_expiry expires_at none = none
with_expiry expires_at (some raw) = some (raw, expires_at)

module _ (U : UuidCodec) (J : Jwt) (t : TokenIssuer) where
  -- The clock, the fresh id of the token, the user and the role.
  abbrev pub access_claims : ℕ → Text → ℕ → Text → Claims
  access_claims now id user_id role = record {
    subject = U.to_text user_id;
    issuer = token_issuer;
    issued_at = numeric_date now;
    not_before = numeric_date now;
    expires_at = numeric_date (now + t.access_ttl);
    id = id;
    role = role;
  }

  unfoldable pub new_access_token : ℕ → Text → ℕ → Text → Option (Text × ℕ)
  new_access_token now id user_id role =
      with_expiry (now + t.access_ttl) (J.sign t.secret (access_claims now id user_id role))

module _ (J : Jwt) (t : TokenIssuer) where
  unfoldable pub parse_access_token : ℕ → Text → Result TokenError Claims
  parse_access_token now raw = claims_parse (J.parse_with_claims t.secret token_issuer now raw)

-- `Claims.UserID`
abbrev pub claims_user_id : UuidCodec → Claims → Option ℕ
claims_user_id U c = U.parse c.subject
