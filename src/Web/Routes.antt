-- ===== src/Web/Routes.antt =====
-- The routes of backend/internal/server/router.go to events, holds and bookings: what stands before
-- each handler.
use seatsync.Prelude.{ℕ, Option, none, some, List, Text, codes, if◌then◌else◌}
use seatsync.Config.Settings.{Config}
use seatsync.Locks.Uuids.{UuidCodec}
use seatsync.Services.World.{SeatLocker, World, Schedule}
use seatsync.RateLimit.Buckets.{BucketStore}
use seatsync.RateLimit.Limiter.{Limit}
use seatsync.Web.Http.{Handler}
use seatsync.Web.Auth.{Authenticator, optional_auth, require_auth}
use seatsync.Web.Limit.{Run, rate_limit}
use seatsync.Web.Decode.{JsonBody}
use seatsync.Web.Bookings.{
  Page, event_get, event_list, event_seat_map, hold_create, hold_get, hold_list, hold_release,
  payment_pay,
}

-- A method and a pattern of path, with the body where one is read.
pub data Endpoint : Type 0 where
  get_events get_event get_seat_map delete_hold get_booking post_pay get_my_bookings : Endpoint
  post_holds : JsonBody (List ℕ) → Endpoint

module _ (R : BucketStore) (L : SeatLocker) (env : Schedule L) (U : UuidCodec) where
  unfoldable pub handler_of : ℕ → Endpoint → Handler (World L) Page
  handler_of max_seats get_events = event_list L env U
  handler_of max_seats get_event = event_get L env U
  handler_of max_seats get_seat_map = event_seat_map L env U
  handler_of max_seats (post_holds body) = hold_create L env U max_seats body
  handler_of max_seats delete_hold = hold_release L env U
  handler_of max_seats get_booking = hold_get L env U
  handler_of max_seats post_pay = payment_pay L env U
  handler_of max_seats get_my_bookings = hold_list L env U

  -- The buckets of the limiter stand beside the state of the services.
  abbrev pub beside : Handler (World L) Page → Handler (R.Store × World L) Page
  beside h r hs (store, w) = let (page, w') = h r hs w in (page, (store, w'))

  module _ (a : Authenticator) (config : Config) (split : Text → Option Text) (run : Run)
      (read write : Limit) (max_seats : ℕ) where
    -- Without rate limiting the limiter is nil.
    abbrev pub limiter : Option Run
    limiter = if config.rate_limit_enabled then some run else none

    abbrev pub limit_read : Handler (R.Store × World L) Page → Handler (R.Store × World L) Page
    limit_read = rate_limit R U config.trust_proxy_headers split limiter (codes "read") read

    abbrev pub limit_write : Handler (R.Store × World L) Page → Handler (R.Store × World L) Page
    limit_write = rate_limit R U config.trust_proxy_headers split limiter (codes "write") write

    abbrev pub browse_auth : Handler (R.Store × World L) Page → Handler (R.Store × World L) Page
    browse_auth next r hs s =
        if config.require_auth_for_browsing
        then require_auth U a next r hs s
        else optional_auth U a next r hs s

    abbrev pub endpoint : Endpoint → Handler (R.Store × World L) Page
    endpoint e = beside (handler_of max_seats e)

    unfoldable pub route : Endpoint → Handler (R.Store × World L) Page
    route get_events = browse_auth (limit_read (endpoint get_events))
    route get_event = browse_auth (limit_read (endpoint get_event))
    route get_seat_map = browse_auth (limit_read (endpoint get_seat_map))
    route (post_holds body) = require_auth U a (limit_write (endpoint (post_holds body)))
    route delete_hold = require_auth U a (limit_write (endpoint delete_hold))
    route get_booking = require_auth U a (limit_read (endpoint get_booking))
    route post_pay = require_auth U a (limit_write (endpoint post_pay))
    route get_my_bookings = require_auth U a (limit_read (endpoint get_my_bookings))
