-- ===== src/Tests/RouteRuns.antt =====
-- A user's and a stranger's requests through the routes.
use seatsync.Prelude.{◌≡◌, refl, [], codes, text_eq, cut, trim_space}
use seatsync.Accounts.Tokens.{parse_access_token}
use seatsync.Prelude.{pos}
use seatsync.RateLimit.Limiter.{Limit}
use seatsync.Services.World.{served}
use seatsync.Web.Auth.{claims_from_request, bearer_token, require_auth}
use seatsync.Web.Routes.{delete_hold, endpoint, get_my_bookings, route}
use seatsync.Web.Limit.{Run}
use seatsync.Web.Protected.{Protected, route-Protected}
use seatsync.Tests.ConfigRuns.{defaults}
use seatsync.Tests.LimitRuns.{hashes}
use seatsync.Tests.ReadRuns.{reading_room}
use seatsync.Tests.ServiceRuns.{locker, quiet}
use seatsync.Tests.Stores.{letters}
use seatsync.Tests.WebRuns.{no_split, plain_jwt, quarter_hour, read_claims, token_of_7, with_token}

abbrev two_a_second : Limit
two_a_second = record { burst = pos 120; per_second = record { num = pos 2; den = 1 } }

abbrev at_900000 : Run
at_900000 = record { fate = served; server = 900000; now = 900000 }

route-Protected_example :
    Protected hashes letters
      (parse_access_token plain_jwt quarter_hour 900000)
      (endpoint hashes locker quiet letters
        (parse_access_token plain_jwt quarter_hour 900000)
        defaults
        no_split
        at_900000
        two_a_second
        two_a_second
        6
        get_my_bookings)
      (with_token token_of_7)
      reading_room
      (route hashes locker quiet letters
        (parse_access_token plain_jwt quarter_hour 900000)
        defaults
        no_split
        at_900000
        two_a_second
        two_a_second
        6
        get_my_bookings
        (with_token token_of_7)
        []
        ([], reading_room))
route-Protected_example =
    route-Protected hashes locker quiet letters (parse_access_token plain_jwt quarter_hour 900000)
      defaults no_split at_900000 two_a_second two_a_second 6 get_my_bookings
      (with_token token_of_7) [] [] reading_room refl

-- A stranger's attempt to release a hold.
route-stranger :
    (route hashes locker quiet letters
      (parse_access_token plain_jwt quarter_hour 900000)
      defaults
      no_split
      at_900000
      two_a_second
      two_a_second
      6
      delete_hold
      (with_token (codes "nonsense"))
      []
      ([], reading_room)).0.status
    ≡ 401
unfolding route require_auth claims_from_request bearer_token text_eq cut trim_space
    parse_access_token read_claims
route-stranger = refl
