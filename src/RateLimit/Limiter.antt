-- ===== src/RateLimit/Limiter.antt =====
-- backend/internal/ratelimit/ratelimit.go: `Limiter.Allow`, which runs the script and fails open.
-- A rate is a fraction of two whole numbers; a wait is in milliseconds.
use seatsync.Prelude.{
  ℕ, Bool, true, not, ◌||◌, Option, none, some, List, [], ◌∷◌, ◌++◌, map, Text, codes, ◌==◌,
  if◌then◌else◌, ℤ, nat_abs, is_positive,
}
use seatsync.Services.World.{Fate, served, lost, answer_lost}
use seatsync.RateLimit.Buckets.{BucketStore}
use seatsync.RateLimit.Script.{bucket_script}

pub record Rate : Type 0 where
  pub num : ℤ
  pub den : ℕ

pub record Limit : Type 0 where
  pub burst : ℤ
  pub per_second : Rate

pub record Decision : Type 0 where
  pub allowed : Bool
  pub remaining : ℕ
  pub retry_after : ℕ

pub data AllowError : Type 0 where
  script_failed : AllowError
  short_reply : ℕ → AllowError

-- Go returns the decision and the error side by side.
pub record Answer : Type 0 where
  pub decision : Decision
  pub error : Option AllowError

-- A value of the reply, and the type assertion that gives 0 for any other.
pub data Value : Type 0 where
  int64 : ℕ → Value
  other : Value

abbrev pub asserted : Value → ℕ
asserted (int64 n) = n
asserted other = 0

abbrev pub allowed_only : Decision
allowed_only = record { allowed = true; remaining = 0; retry_after = 0 }

abbrev pub short : ℕ → Answer
short n = record { decision = allowed_only; error = some (short_reply n) }

unfoldable pub read_reply : List Value → Answer
read_reply [] = short 0
read_reply (a ∷ []) = short 1
read_reply (a ∷ b ∷ []) = short 2
read_reply (a ∷ b ∷ c ∷ rest) = record {
  decision = record { allowed = asserted a == 1; remaining = asserted b; retry_after = asserted c };
  error = none;
}

abbrev pub failed : Answer
failed = record { decision = allowed_only; error = some script_failed }

abbrev pub bucket_key : Text → Text
bucket_key key = codes "ratelimit:" ++ key

-- The limits that the script is not run for.
abbrev pub is_unlimited : Limit → Bool
is_unlimited limit = not (is_positive limit.burst) || not (is_positive (limit.per_second).num)

module _ (R : BucketStore) where
  -- What `script.Run(…).Slice()` comes to.
  unfoldable pub run_script : Fate → List ℕ × R.Store → R.Store → Answer × R.Store
  run_script served (reply, s') s = (read_reply (map int64 reply), s')
  run_script lost (reply, s') s = (failed, s)
  run_script answer_lost (reply, s') s = (failed, s')

  -- The fate of the script's run, the server's time, the caller's time, the key and the limit.
  unfoldable pub allow : Fate → ℕ → ℕ → Text → Limit → R.Store → Answer × R.Store
  allow fate server now key limit s =
      if is_unlimited limit
      then (record { decision = allowed_only; error = none }, s)
      else run_script fate
          (bucket_script R server (bucket_key key) (nat_abs limit.burst)
            (nat_abs (limit.per_second).num) (limit.per_second).den now 1 s)
          s
