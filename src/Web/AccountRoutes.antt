-- ===== src/Web/AccountRoutes.antt =====
-- The routes of backend/internal/server/router.go to accounts. They are limited before the caller is known, so
-- by the address.
use seatsync.Prelude.{ℕ, Option, none, some, Text, codes, if◌then◌else◌}
use seatsync.Config.Settings.{Config}
use seatsync.Locks.Uuids.{UuidCodec}
use seatsync.RateLimit.Buckets.{BucketStore}
use seatsync.RateLimit.Limiter.{Limit}
use seatsync.Accounts.Tokens.{Jwt, TokenIssuer}
use seatsync.Accounts.World.{World, Schedule}
use seatsync.Accounts.Service.{Library}
use seatsync.Web.Http.{Handler}
use seatsync.Web.Auth.{Authenticator, require_auth}
use seatsync.Web.Limit.{Run, rate_limit}
use seatsync.Web.Decode.{JsonBody}
use seatsync.Web.SignIns.{
  AccountPage, LoginRequest, RegisterRequest, auth_login, auth_logout, auth_me, auth_refresh,
  auth_register,
}

pub data AccountEndpoint : Type 0 where
  post_register : JsonBody RegisterRequest → AccountEndpoint
  post_login : JsonBody LoginRequest → AccountEndpoint
  post_refresh post_logout : JsonBody Text → AccountEndpoint
  get_me : AccountEndpoint

module _ (lib : Library) (U : UuidCodec) (J : Jwt) (t : TokenIssuer) (env : Schedule)
    (cost : ℕ) where
  unfoldable pub account_handler : AccountEndpoint → Handler World AccountPage
  account_handler (post_register body) = auth_register lib U J t env cost body
  account_handler (post_login body) = auth_login lib U J t env body
  account_handler (post_refresh body) = auth_refresh lib U J t env body
  account_handler (post_logout body) = auth_logout lib U J t env body
  account_handler get_me = auth_me lib U J t env

  module _ (R : BucketStore) (a : Authenticator) (config : Config) (split : Text → Option Text)
      (run : Run) (auth : Limit) where
    abbrev pub account_endpoint : AccountEndpoint → Handler (R.Store × World) AccountPage
    account_endpoint e r hs (store, w) =
        let (page, w') = account_handler e r hs w in (page, (store, w'))

    abbrev pub limit_account :
        Handler (R.Store × World) AccountPage → Handler (R.Store × World) AccountPage
    limit_account =
        rate_limit R U config.trust_proxy_headers split
          (if config.rate_limit_enabled then some run else none) (codes "auth") auth

    unfoldable pub account_route : AccountEndpoint → Handler (R.Store × World) AccountPage
    account_route (post_register body) = limit_account (account_endpoint (post_register body))
    account_route (post_login body) = limit_account (account_endpoint (post_login body))
    account_route (post_refresh body) = limit_account (account_endpoint (post_refresh body))
    account_route (post_logout body) = limit_account (account_endpoint (post_logout body))
    account_route get_me = limit_account (require_auth U a (account_endpoint get_me))
