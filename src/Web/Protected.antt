-- ===== src/Web/Protected.antt =====
-- What reaches the services through the routes of backend/internal/server/router.go.
use seatsync.Prelude.{
  ℕ, ◌≡◌, ◌⊎◌, inl, inr, refl, ap, ◌∙◌, Bool, true, false, not, ◌||◌, Option, none, some, Text, ok,
  Bool-cases,
}
use seatsync.Config.Settings.{Config}
use seatsync.Locks.Uuids.{UuidCodec}
use seatsync.Services.World.{SeatLocker, World, Schedule}
use seatsync.RateLimit.Buckets.{BucketStore}
use seatsync.RateLimit.Limiter.{Limit, allow}
use seatsync.Accounts.Tokens.{Claims, claims_user_id}
use seatsync.Web.Http.{Request, Headers, Response, Handler}
use seatsync.Web.Identity.{caller_key, scoped_key}
use seatsync.Web.Auth.{Authenticator, bearer_token, require_auth, with_identity}
use seatsync.Web.Guards.{require_auth-Checked}
use seatsync.Web.Limit.{Run, rate_limit}
use seatsync.Web.Routes.{
  Endpoint, delete_hold, endpoint, get_booking, get_event, get_events, get_my_bookings,
  get_seat_map, post_holds, post_pay, route,
}

-- The routes that anyone may use, unless browsing is closed.
abbrev pub is_browsing : Endpoint → Bool
is_browsing get_events = true
is_browsing get_event = true
is_browsing get_seat_map = true
is_browsing _ = false

abbrev pub needs_caller : Config → Endpoint → Bool
needs_caller config e = not (is_browsing e) || config.require_auth_for_browsing

module _ {ℓ} {S : Type 0} {Out : Type ℓ} (R : BucketStore) (next : Handler (R.Store × S) Out) where
  -- The request went on, with the state beside the buckets as it was, or was answered 429.
  abbrev pub Limited : Request → S → Response Out × (R.Store × S) → Type ℓ
  Limited r s answer =
      ((hs : Headers) × (store : R.Store) × (answer ≡ next r hs (store, s)))
      ⊎ ((answer.1.1 ≡ s) × (answer.0.status ≡ 429))

  rate_limit-Limited :
      (U : UuidCodec) (trust : Bool) (split : Text → Option Text) (run : Option Run) (scope : Text)
      (limit : Limit) (r : Request) (hs : Headers) (store : R.Store) (s : S)
      → Limited r s (rate_limit R U trust split run scope limit next r hs (store, s))
  unfolding rate_limit
  rate_limit-Limited U trust split none scope limit r hs store s = inl (hs, store, refl)
  rate_limit-Limited U trust split (some run) scope limit r hs store s =
      let key = scoped_key scope (caller_key U trust split r) in
      let answer = allow R run.fate run.server run.now key limit store in
      elim (Bool-cases (answer.0.decision).allowed) [
        | inl e ↦ rw e (inl (_, _, refl))
        | inr e ↦ rw e (inr (refl, refl))
      ]

module _ {ℓ} {S : Type 0} {Out : Type ℓ} (R : BucketStore) (U : UuidCodec) (a : Authenticator)
    (next : Handler (R.Store × S) Out) where
  -- The request has a verified token of a user and went on as that user, or it was answered 401 or
  -- 429; until then the state beside the buckets is as it was.
  abbrev pub Protected : Request → S → Response Out × (R.Store × S) → Type ℓ
  Protected r s answer =
      ((raw : Text) × (c : Claims) × (user_id : ℕ) × (hs : Headers) × (store : R.Store)
        × (bearer_token r ≡ ok raw)
        × (a raw ≡ ok c)
        × (claims_user_id U c ≡ some user_id)
        × (answer ≡ next (with_identity r user_id c.role) hs (store, s)))
      ⊎ ((answer.1.1 ≡ s) × ((answer.0.status ≡ 401) ⊎ (answer.0.status ≡ 429)))

  require_auth-Protected :
      (trust : Bool) (split : Text → Option Text) (run : Option Run) (scope : Text) (limit : Limit)
      (r : Request) (hs : Headers) (store : R.Store) (s : S)
      → Protected r s
          (require_auth U a (rate_limit R U trust split run scope limit next) r hs (store, s))
  require_auth-Protected trust split run scope limit r hs store s =
      elim (require_auth-Checked U a (rate_limit R U trust split run scope limit next) r hs
        (store, s)) [
          | inr (same, status) ↦ inr (ap (λ p. p.1) same, inl status)
          | inl (raw, c, user_id, b, p, e, went) ↦
              elim (rate_limit-Limited R next U trust split run scope limit
                (with_identity r user_id c.role) hs store s) [
                  | inl (hs', store', on) ↦ inl (raw, c, user_id, hs', store', b, p, e, went ∙ on)
                  | inr (same, status) ↦
                      inr (ap (λ x. x.1.1) went ∙ same, inr (ap (λ x. x.0.status) went ∙ status))
                ]
        ]

module _ (R : BucketStore) (L : SeatLocker) (env : Schedule L) (U : UuidCodec) (a : Authenticator)
    (config : Config) (split : Text → Option Text) (run : Run) (read write : Limit)
    (max_seats : ℕ) where
  -- A request to hold, release, pay or read bookings, and with closed browsing one to any of these
  -- routes, reaches its handler only if its token is verified and names a user, and then as that
  -- user and with the services' state as it was; otherwise it is answered 401 or 429, and the
  -- services' state is as it was.
  pub route-Protected :
      (e : Endpoint) (r : Request) (hs : Headers) (store : R.Store) (w : World L)
      → needs_caller config e ≡ true
      → Protected R U a
          (endpoint R L env U a config split run read write max_seats e)
          r
          w
          (route R L env U a config split run read write max_seats e r hs (store, w))
  unfolding route
  route-Protected get_events r hs store w closed =
      rw closed (require_auth-Protected R U a _ _ _ _ _ _ r hs store w)
  route-Protected get_event r hs store w closed =
      rw closed (require_auth-Protected R U a _ _ _ _ _ _ r hs store w)
  route-Protected get_seat_map r hs store w closed =
      rw closed (require_auth-Protected R U a _ _ _ _ _ _ r hs store w)
  route-Protected (post_holds body) r hs store w h =
      require_auth-Protected R U a _ _ _ _ _ _ r hs store w
  route-Protected delete_hold r hs store w h = require_auth-Protected R U a _ _ _ _ _ _ r hs store w
  route-Protected get_booking r hs store w h = require_auth-Protected R U a _ _ _ _ _ _ r hs store w
  route-Protected post_pay r hs store w h = require_auth-Protected R U a _ _ _ _ _ _ r hs store w
  route-Protected get_my_bookings r hs store w h =
      require_auth-Protected R U a _ _ _ _ _ _ r hs store w
