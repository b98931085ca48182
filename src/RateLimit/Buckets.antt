-- ===== src/RateLimit/Buckets.antt =====
-- The Redis commands that scripts/tokenbucket.lua of backend/internal/ratelimit calls, as the
-- server's documentation describes them. Each command is given the server's time in milliseconds.
-- A hash that the script writes holds two numbers.
use seatsync.Prelude.{
  ℕ, ◌+◌, ◌*◌, ◌≤◌, ◌≡◌, false, Option, none, some, Text, text_eq, ltb, if◌then◌else◌,
}

-- HMGET key 'tokens' 'updated'
abbrev pub Fields : Type 0
Fields = Option ℕ × Option ℕ

pub record BucketStore : Type 1 where
  pub Store : Type 0
  pub hmget : ℕ → Text → Store → Fields
  -- HSET key 'tokens' value 'updated' value
  pub hset : ℕ → Text → ℕ → ℕ → Store → Store
  -- EXPIRE key seconds
  pub expire : ℕ → Text → ℕ → Store → Store
  pub hmget-expire-hset_self :
      (now t : ℕ) (k : Text) (tokens updated ttl : ℕ) (s : Store)
      → now ≤ t
      → hmget t k (expire now k ttl (hset now k tokens updated s))
        ≡ (if ltb t (now + 1000 * ttl) then (some tokens, some updated) else (none, none))
  pub hmget-hset_ne :
      (now t : ℕ) (j k : Text) (tokens updated : ℕ) (s : Store)
      → text_eq j k ≡ false
      → hmget t j (hset now k tokens updated s) ≡ hmget t j s
  pub hmget-expire_ne :
      (now t : ℕ) (j k : Text) (ttl : ℕ) (s : Store)
      → text_eq j k ≡ false
      → hmget t j (expire now k ttl s) ≡ hmget t j s
