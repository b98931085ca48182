-- ===== src/Web/Guards.antt =====
-- What gets past the checks of identity.
use seatsync.Prelude.{
  ℕ, ◌+◌, ◌*◌, ◌/◌, ◌≤◌, ◌≡◌, ◌⊎◌, inl, inr, refl, ap, false, Option, none, some, ◌++◌, Text, ok,
  err, text_eq, codes, cut, trim_space, is_empty, ltb, if◌then◌else◌, arith, Result-cases,
  Option-cases, Bool-cases,
}
use seatsync.Httpx.{ApiError}
use seatsync.Locks.Uuids.{UuidCodec}
use seatsync.Accounts.Tokens.{
  Claims, Jwt, jwt_expired, TokenIssuer, TokenError, access_claims, new_access_token,
  parse_access_token, claims_user_id, claims_parse, numeric_date, with_expiry,
}
use seatsync.Web.Http.{Request, Headers, Response, Handler, write_error}
use seatsync.Web.Auth.{
  bearer_token, Authenticator, claims_from_request, identity, with_identity, require_auth,
  token_has_expired, token_is_invalid,
}

module _ {ℓ} {S : Type 0} {Out : Type ℓ} (U : UuidCodec) (a : Authenticator)
    (next : Handler S Out) where
  -- The request has a token that the authenticator accepts and that names a user, and it went on
  -- as that user; or it was answered 401 and nothing has changed.
  abbrev pub Checked : Request → Headers → S → Response Out × S → Type ℓ
  Checked r hs s answer =
      ((raw : Text) × (c : Claims) × (user_id : ℕ) × (bearer_token r ≡ ok raw)
        × (a raw ≡ ok c)
        × (claims_user_id U c ≡ some user_id)
        × (answer ≡ next (with_identity r user_id c.role) hs s))
      ⊎ ((answer.1 ≡ s) × (answer.0.status ≡ 401))

  bearer_token-401 : (r : Request) (e : ApiError) → bearer_token r ≡ err e → e.status ≡ 401
  unfolding bearer_token
  bearer_token-401 r e h = ground arith

  refused :
      (r : Request) (hs : Headers) (s : S) (e : ApiError)
      → identity U (claims_from_request a r) ≡ err e
      → e.status ≡ 401
      → Checked r hs s (require_auth U a next r hs s)
  unfolding require_auth
  refused r hs s e h k = rw h (inr (refl, k))

  by_claims :
      (r : Request) (hs : Headers) (s : S) (raw : Text) (c : Claims)
      → bearer_token r ≡ ok raw
      → a raw ≡ ok c
      → Checked r hs s (require_auth U a next r hs s)
  unfolding claims_from_request require_auth
  by_claims r hs s raw c b p = elim (Option-cases (claims_user_id U c)) [
    | inl e ↦ refused r hs s token_is_invalid (rw (b, p, e) refl) refl
    | inr (user_id, e) ↦ inl (raw, c, user_id, b, p, e, rw (b, p, e) refl)
  ]

  pub require_auth-Checked :
      (r : Request) (hs : Headers) (s : S) → Checked r hs s (require_auth U a next r hs s)
  unfolding claims_from_request
  require_auth-Checked r hs s = elim (Result-cases (bearer_token r)) [
    | inr (e, b) ↦ refused r hs s e (rw b refl) (bearer_token-401 r e b)
    | inl (raw, b) ↦ elim (Result-cases (a raw)) [
      | inl (c, p) ↦ by_claims r hs s raw c b p
      | inr (TokenError.token_expired, p) ↦ refused r hs s token_has_expired (rw (b, p) refl) refl
      | inr (TokenError.token_invalid, p) ↦ refused r hs s token_is_invalid (rw (b, p) refl) refl
    ]
  ]

abbrev pub Sends : Request → Text → Type 0
Sends r raw = r.header (codes "Authorization") ≡ codes "Bearer " ++ raw

bearer_token-Sends :
    (r : Request) (raw : Text)
    → Sends r raw
    → trim_space raw ≡ raw
    → is_empty raw ≡ false
    → bearer_token r ≡ ok raw
unfolding bearer_token cut text_eq
bearer_token-Sends r raw h trimmed full = rw h (rw (trimmed, full) refl)

module _ (U : UuidCodec) (J : Jwt) (t : TokenIssuer) where
  signed :
      (issued user_id exp : ℕ) (id role raw : Text)
      → new_access_token U J t issued id user_id role ≡ some (raw, exp)
      → J.sign t.secret (access_claims U J t issued id user_id role) ≡ some raw
  unfolding new_access_token
  signed issued user_id exp id role raw h =
      go (J.sign t.secret (access_claims U J t issued id user_id role)) h
    where
      go :
          (o : Option Text) → with_expiry (issued + t.access_ttl) o ≡ some (raw, exp) → o ≡ some raw
      go none e = cc
      go (some x) e = cc

  parsed :
      (issued now user_id exp : ℕ) (id role raw : Text)
      → new_access_token U J t issued id user_id role ≡ some (raw, exp)
      → issued ≤ now
      → parse_access_token J t now raw
        ≡ claims_parse (
            if ltb now (1000 * numeric_date (issued + t.access_ttl))
            then ok (access_claims U J t issued id user_id role)
            else err jwt_expired)
  unfolding parse_access_token
  parsed issued now user_id exp id role raw h le = ap claims_parse (
      J.parse-sign t.secret (access_claims U J t issued id user_id role) now raw
        (signed issued user_id exp id role raw h) (omega arith))

module _ {ℓ} {S : Type 0} {Out : Type ℓ} (U : UuidCodec) (J : Jwt) (t : TokenIssuer)
    (next : Handler S Out) where
  -- A request that sends the token issued to a user is let through as that user with that role
  -- from the time of issue until the whole second in which the lifetime ends, and is answered
  -- that the token has expired from then on.
  pub require_auth-new_access_token :
      (issued now user_id exp : ℕ) (id role raw : Text) (r : Request) (hs : Headers) (s : S)
      → new_access_token U J t issued id user_id role ≡ some (raw, exp)
      → issued ≤ now
      → Sends r raw
      → require_auth U (parse_access_token J t now) next r hs s ≡ (
          if ltb now (1000 * ((issued + t.access_ttl) / 1000))
          then next (with_identity r user_id role) hs s
          else (write_error hs token_has_expired, s))
  unfolding require_auth claims_from_request
  require_auth-new_access_token issued now user_id exp id role raw r hs s h le sends =
      rw (token, parsed U J t issued now user_id exp id role raw h le)
        (elim (Bool-cases (ltb now (1000 * numeric_date (issued + t.access_ttl)))) [
          | inl e ↦ rw e (rw (U.parse-to_text user_id) refl)
          | inr e ↦ rw e refl
        ])
    where
      shape : (trim_space raw ≡ raw) × (is_empty raw ≡ false)
      shape = J.sign-trimmed t.secret _ raw (signed U J t issued user_id exp id role raw h)

      token : bearer_token r ≡ ok raw
      token = bearer_token-Sends r raw sends shape.0 shape.1
