-- ===== src/RateLimit/Refill.antt =====
-- What the script leaves in Redis: the hash, which expires, stands for a bucket that is never
-- dropped, as long as the clocks of the callers and of the server run within half a minute.
use seatsync.Prelude.{
  ℕ, ◌+◌, ◌-◌, ◌*◌, ◌≤◌, ◌<◌, ◌≡◌, refl, [], ◌∷◌, ◌/◌, false, Text, text_eq, ltb, smaller, ceil_div,
  le-ceil_div, inl, inr, Bool-cases, arith,
}
use native.Mathlib.Nat.{mul-le-mul_right}
use seatsync.RateLimit.Buckets.{BucketStore}
use seatsync.RateLimit.Script.{unit, bucket_of, refill, Draw, draw, bucket_script}

-- The caller's clock and the server's are at most half a minute apart.
abbrev pub Synced : ℕ → ℕ → Type 0
Synced server now = (server ≤ now + 30000) × (now ≤ server + 30000)

-- The time to live is enough to refill the bucket, and a minute more.
full-le-ttl :
    (capacity num den time : ℕ)
    → 0 < num
    → 1000 * ceil_div (capacity * den) num ≤ time
    → capacity * unit den ≤ time * num
full-le-ttl capacity num den time p h = omega (arith, le-ceil_div (capacity * den) num p, product)
  where
    product : 1000 * ceil_div (capacity * den) num * num ≤ time * num
    product = mul-le-mul_right num h

module _ (R : BucketStore) (capacity num den : ℕ) (key : Text) where
  abbrev pub full : ℕ
  full = capacity * unit den

  -- The tokens that a request would find.
  unfoldable pub level : ℕ → ℕ → R.Store → ℕ
  level server now s = refill full num now (bucket_of full now (R.hmget server key s))

  unfoldable pub drawn : ℕ → ℕ → R.Store → Draw
  drawn server now s = draw (1 * unit den) num (level server now s)

  pub level-le-full : (server now : ℕ) (s : R.Store) → level server now s ≤ full
  unfolding level refill
  level-le-full server now s = ground arith

  -- The state after a run for this key.
  abbrev pub after_run : ℕ → ℕ → R.Store → R.Store
  after_run server now s = (bucket_script R server key capacity num den now 1 s).1

  pub bucket_script-drawn :
      (server now : ℕ) (s : R.Store)
      → (bucket_script R server key capacity num den now 1 s).0
        ≡ (drawn server now s).allowed
          ∷ (drawn server now s).left / unit den
          ∷ (drawn server now s).retry_after
          ∷ []
  unfolding bucket_script drawn level
  bucket_script-drawn server now s = refl

  -- A later request finds what was left and what has accrued since, whether or not the hash has
  -- expired by then.
  pub level-script :
      (server now server' now' : ℕ) (s : R.Store)
      → 0 < num
      → Synced server now
      → Synced server' now'
      → server ≤ server'
      → now ≤ now'
      → level server' now' (after_run server now s)
        ≡ smaller full ((drawn server now s).left + (now' - now) * num)
  unfolding bucket_script level drawn refill
  level-script server now server' now' s p sync sync' le le' =
      rw (R.hmget-expire-hset_self server server' key left now ttl s le)
        (elim (Bool-cases (ltb server' (server + 1000 * ttl))) [
          | inl kept ↦ rw kept refl
          | inr expired ↦
              rw expired
                (ground (arith, full-le-ttl capacity num den (now' - now) p (ground arith)))
        ])
    where
      left : ℕ
      left = (draw (1 * unit den) num (level server now s)).left

      ttl : ℕ
      ttl = ceil_div (capacity * den) num + 60

  -- A run for another key leaves the bucket alone.
  pub level-script_ne :
      (server now server' now' : ℕ) (k : Text) (capacity' num' den' cost : ℕ) (s : R.Store)
      → text_eq key k ≡ false
      → level server' now' (bucket_script R server k capacity' num' den' now cost s).1
        ≡ level server' now' s
  unfolding bucket_script level
  level-script_ne server now server' now' k capacity' num' den' cost s h =
      rw
        (R.hmget-expire_ne server server' key k _ _ h, R.hmget-hset_ne server server' key k _ _ s h)
        refl
