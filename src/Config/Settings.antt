-- ===== src/Config/Settings.antt =====
-- The configuration, and the parsers of Go's library that read it. A duration is a signed number of
-- nanoseconds; of a float only its order to 0 and 1 matters here.
use seatsync.Prelude.{
  ℕ, suc, Bool, true, false, not, Option, List, Text, ltb, ℤ, pos, negsuc, is_positive,
}

-- A fraction's denominator is one more than its second number.
pub data Float : Type 0 where
  nan : Float
  infinite negative_infinite : Float
  finite : ℤ → ℕ → Float

-- Each comparison with NaN is false.
abbrev pub below_zero : Float → Bool
below_zero nan = false
below_zero infinite = false
below_zero negative_infinite = true
below_zero (finite (pos n) d) = false
below_zero (finite (negsuc n) d) = true

abbrev pub above_one : Float → Bool
above_one nan = false
above_one infinite = true
above_one negative_infinite = false
above_one (finite (pos n) d) = ltb (suc d) n
above_one (finite (negsuc n) d) = false

-- `f <= 0`
abbrev pub at_most_zero : Float → Bool
at_most_zero nan = false
at_most_zero infinite = false
at_most_zero negative_infinite = true
at_most_zero (finite n d) = not (is_positive n)

abbrev pub is_negative : ℤ → Bool
is_negative (pos n) = false
is_negative (negsuc n) = true

-- `a < b`
abbrev pub int_lt : ℤ → ℤ → Bool
int_lt (pos a) (pos b) = ltb a b
int_lt (pos a) (negsuc b) = false
int_lt (negsuc a) (pos b) = true
int_lt (negsuc a) (negsuc b) = ltb b a

pub record Config : Type 0 where
  pub port : Text
  pub database_url : Text
  pub redis_addr : Text
  pub redis_password : Text
  pub redis_tls : Bool
  pub cors_allowed_origins : List Text
  pub run_migrations : Bool
  pub jwt_secret : Text
  pub jwt_access_ttl : ℤ
  pub jwt_refresh_ttl : ℤ
  pub hold_ttl : ℤ
  pub max_seats_per_hold : ℤ
  pub expiry_sweep_interval : ℤ
  pub payment_mode : Text
  pub payment_success_rate : Float
  pub payment_min_latency : ℤ
  pub payment_max_latency : ℤ
  pub rate_limit_enabled : Bool
  pub rate_limit_auth_burst : ℤ
  pub rate_limit_auth_per_minute : Float
  pub rate_limit_read_burst : ℤ
  pub rate_limit_read_per_minute : Float
  pub rate_limit_write_burst : ℤ
  pub rate_limit_write_per_minute : Float
  pub trust_proxy_headers : Bool
  pub require_auth_for_browsing : Bool
  pub enable_hsts : Bool

-- The environment (with what a .env file adds), and the parsers of time and strconv.
pub record Environment : Type 0 where
  pub lookup_env : Text → Option Text
  pub parse_duration : Text → Option ℤ
  pub atoi : Text → Option ℤ
  pub parse_float : Text → Option Float
  pub parse_bool : Text → Option Bool

pub data ConfigError : Type 0 where
  invalid_duration invalid_integer invalid_number : Text → ConfigError
  empty_secret example_secret seats_per_hold hold_ttl_not_positive : ConfigError
  sweep_not_positive token_ttl_not_positive unknown_payment_mode success_rate_out_of_range :
      ConfigError
  negative_latency latency_order : ConfigError
  budget_not_positive : Text → ConfigError
