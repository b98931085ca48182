-- ===== src/RateLimit/Script.antt =====
-- backend/internal/ratelimit/scripts/tokenbucket.lua, which Redis runs as one step. The refill
-- rate is a fraction, `num / den` tokens a second, and tokens are counted in units of which
-- `unit den` make one token, so that each quantity of the script is a whole number of units. The
-- script computes in floating point; the rounding is not modelled.
use seatsync.Prelude.{
  ℕ, ◌+◌, ◌-◌, ◌*◌, ◌/◌, none, some, List, [], ◌∷◌, Text, leb, smaller, ceil_div, if◌then◌else◌,
}
use seatsync.RateLimit.Buckets.{Fields, BucketStore}

abbrev pub unit : ℕ → ℕ
unit den = 1000 * den

pub record Bucket : Type 0 where
  pub tokens : ℕ
  pub updated : ℕ

-- An unseen client starts with a full bucket.
abbrev pub bucket_of : ℕ → ℕ → Fields → Bucket
bucket_of capacity now (some tokens, some updated) = record { tokens = tokens; updated = updated }
bucket_of capacity now (some tokens, none) = record { tokens = capacity; updated = now }
bucket_of capacity now (none, updated) = record { tokens = capacity; updated = now }

-- The tokens after the refill. A clock that went back counts as no time.
unfoldable pub refill : ℕ → ℕ → ℕ → Bucket → ℕ
refill capacity num now b = smaller capacity (b.tokens + (now - b.updated) * num)

-- What is allowed, the tokens left, and the milliseconds until there are enough.
pub record Draw : Type 0 where
  pub allowed : ℕ
  pub left : ℕ
  pub retry_after : ℕ

unfoldable pub draw : ℕ → ℕ → ℕ → Draw
draw cost num tokens =
    if leb cost tokens
    then record { allowed = 1; left = tokens - cost; retry_after = 0 }
    else record { allowed = 0; left = tokens; retry_after = ceil_div (cost - tokens) num }

module _ (R : BucketStore) where
  -- The arguments are the server's time, the key, capacity, rate, the caller's time and the cost;
  -- the reply is allowed, the whole tokens that remain, and the wait.
  unfoldable pub bucket_script : ℕ → Text → ℕ → ℕ → ℕ → ℕ → ℕ → R.Store → List ℕ × R.Store
  bucket_script server key capacity num den now cost s =
      let full = capacity * unit den in
      let d =
        draw (cost * unit den) num
          (refill full num now (bucket_of full now (R.hmget server key s))) in
      let ttl = ceil_div (capacity * den) num + 60 in
      (
        d.allowed ∷ d.left / unit den ∷ d.retry_after ∷ [],
        R.expire server key ttl (R.hset server key d.left now s),
      )
