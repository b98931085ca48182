-- ===== src/Web/Router.antt =====
-- backend/internal/server/router.go: the three allowances, and what stands before each handler. An
-- allowance whose rate is no finite number is `none`.
use seatsync.Prelude.{
  zero, suc, ◌*◌, ◌≡◌, refl, true, false, Option, none, some, List, ok, ℤ, pos, negsuc, arith,
}
use seatsync.Config.Settings.{
  Float, nan, infinite, negative_infinite, finite, at_most_zero, Config, Environment,
}
use seatsync.Config.Load.{Budget, load}
use seatsync.Config.Checks.{Rearranges}
use seatsync.Config.Usable.{IsPositive, IsUsable, load-IsUsable}
use seatsync.RateLimit.Limiter.{Limit, is_unlimited}

-- A burst, and a rate a minute turned into one a second.
abbrev pub limit_of : ℤ → Float → Option Limit
limit_of burst nan = none
limit_of burst infinite = none
limit_of burst negative_infinite = none
limit_of burst (finite num d) =
    some (record { burst = burst; per_second = record { num = num; den = 60 * suc d } })

abbrev pub limit_auth : Config → Option Limit
limit_auth c = limit_of c.rate_limit_auth_burst c.rate_limit_auth_per_minute

abbrev pub limit_read : Config → Option Limit
limit_read c = limit_of c.rate_limit_read_burst c.rate_limit_read_per_minute

abbrev pub limit_write : Config → Option Limit
limit_write c = limit_of c.rate_limit_write_burst c.rate_limit_write_per_minute

-- The limiter does run its script for the allowance, if it is a finite one.
abbrev pub Enforced : Option Limit → Type 0
Enforced none = Unit {0}
Enforced (some limit) = is_unlimited limit ≡ false

limit_of-Enforced :
    (burst : ℤ) (rate : Float)
    → IsPositive burst × (at_most_zero rate ≡ false)
    → Enforced (limit_of burst rate)
limit_of-Enforced burst nan h = tt
limit_of-Enforced burst infinite h = tt
limit_of-Enforced burst negative_infinite h = tt
limit_of-Enforced (pos zero) (finite n d) h = absurd (omega arith)
limit_of-Enforced (pos (suc b)) (finite (pos (suc n)) d) h = refl
limit_of-Enforced (pos (suc b)) (finite (pos zero) d) h = cc
limit_of-Enforced (pos (suc b)) (finite (negsuc n) d) h = cc
limit_of-Enforced (negsuc b) (finite n d) h = absurd h.0

-- A configuration that loads is usable: the secret is not empty and not the example in production,
-- lifetimes, the sweep interval and the seat limit are positive, the payment mode is known, the
-- success rate is neither below 0 nor above 1, and the latencies are in order. If it turns rate
-- limiting on, then the limiter is in force for each of the three budgets of the router with a
-- finite rate. Go may range over the budgets in any order.
pub load-Enforced :
    (arrange : List Budget → List Budget) (E : Environment) (c : Config)
    → Rearranges arrange
    → load arrange E ≡ ok c
    → IsUsable E c
      × (c.rate_limit_enabled ≡ true
          → Enforced (limit_auth c) × Enforced (limit_read c) × Enforced (limit_write c))
load-Enforced arrange E c rearranges h =
    let u = load-IsUsable arrange E c rearranges h in
    (
      u,
      λ on. (
        limit_of-Enforced _ _ (u.limits on).0,
        limit_of-Enforced _ _ (u.limits on).1,
        limit_of-Enforced _ _ (u.limits on).2,
      ),
    )
