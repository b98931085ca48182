-- ===== src/RateLimit/Retry.antt =====
-- The wait that a refusal reports, and the bucket that never expires.
use seatsync.Prelude.{
  ℕ, suc, ◌+◌, ◌-◌, ◌*◌, ◌≤◌, ◌<◌, ◌≡◌, ◌↔◌, refl, sym, ◌∙◌, true, false, Text, smaller, ceil_div,
  le-ceil_div, ceil_div-lt, leb, inl, inr, Bool-cases, arith, nat_abs, ◌==◌,
}
use native.Mathlib.Nat.{mul-le-mul_right}
use seatsync.Services.World.{served}
use seatsync.RateLimit.Buckets.{BucketStore}
use seatsync.RateLimit.Script.{unit, Draw, draw}
use seatsync.RateLimit.Limiter.{
  Limit, Answer, read_reply, run_script, allow, bucket_key, is_unlimited,
}
use seatsync.RateLimit.Refill.{Synced, drawn, after_run, bucket_script-drawn, level-script}

-- Waiting is enough exactly from the rounded-up quotient on.
ceil_div-le_iff : (a b n : ℕ) → 0 < b → (a ≤ n * b) ↔ (ceil_div a b ≤ n)
ceil_div-le_iff a b n p = (down, up)
  where
    up : ceil_div a b ≤ n → a ≤ n * b
    up h = omega (arith, le-ceil_div a b p, mul-le-mul_right b h)

    down : a ≤ n * b → ceil_div a b ≤ n
    down h = elim (Bool-cases (leb (ceil_div a b) n)) [
      | inl e ↦ ground arith
      | inr e ↦
          let more : suc n ≤ ceil_div a b = ground arith in
          absurd (omega (arith, ceil_div-lt a b p, mul-le-mul_right b more))
    ]

-- A draw that was refused succeeds later exactly if the reported wait has passed.
draw-retry :
    (cost num tokens time most : ℕ)
    → 0 < num
    → cost ≤ most
    → (draw cost num tokens).allowed ≡ 0
    → ((draw cost num (smaller most ((draw cost num tokens).left + time * num))).allowed ≡ 1)
      ↔ ((draw cost num tokens).retry_after ≤ time)
unfolding draw
draw-retry cost num tokens time most p enough h = elim (Bool-cases (leb cost tokens)) [
  | inl e ↦ absurd (ground arith)
  | inr e ↦ rw e (
    λ f. (ceil_div-le_iff (cost - tokens) num time p).0 (ground arith),
    λ f. ground (arith, (ceil_div-le_iff (cost - tokens) num time p).1 f),
  )
]

module _ (R : BucketStore) (key : Text) (limit : Limit) where
  abbrev pub answer_at : ℕ → ℕ → R.Store → Answer × R.Store
  answer_at server now s = allow R served server now key limit s

  abbrev capacity : ℕ
  capacity = nat_abs limit.burst

  abbrev num : ℕ
  num = nat_abs (limit.per_second).num

  abbrev den : ℕ
  den = (limit.per_second).den

  abbrev drawn_at : ℕ → ℕ → R.Store → Draw
  drawn_at = drawn R capacity num den (bucket_key key)

  -- Whether the draw is allowed, how long it says to wait, and the store after it.
  allow-drawn :
      (server now : ℕ) (s : R.Store)
      → is_unlimited limit ≡ false
      → ((answer_at server now s).0.decision.allowed ≡ ((drawn_at server now s).allowed == 1))
        × ((answer_at server now s).0.decision.retry_after ≡ (drawn_at server now s).retry_after)
        × ((answer_at server now s).1 ≡ after_run R capacity num den (bucket_key key) server now s)
  unfolding allow run_script read_reply
  allow-drawn server now s h =
      rw (h, bucket_script-drawn R capacity num den (bucket_key key) server now s)
        (refl, refl, refl)

  one-le : is_unlimited limit ≡ false → (0 < num) × (1 * unit den ≤ capacity * unit den)
  one-le h = (ground arith, mul-le-mul_right (unit den) (ground arith))

  retry-drawn :
      (server now server' now' : ℕ) (s : R.Store)
      → is_unlimited limit ≡ false
      → (drawn_at server now s).allowed ≡ 0
      → Synced server now
      → Synced server' now'
      → server ≤ server'
      → now ≤ now'
      → ((drawn_at server' now'
            (after_run R capacity num den (bucket_key key) server now s)).allowed
          ≡ 1)
        ↔ ((drawn_at server now s).retry_after ≤ now' - now)
  unfolding drawn
  retry-drawn server now server' now' s h e sync sync' le le' =
      rw
        (level-script R capacity num den (bucket_key key) server now server' now' s (one-le h).0
          sync sync' le le')
        (draw-retry (1 * unit den) num _ (now' - now) (capacity * unit den) (one-le h).0
          (one-le h).1 e)

  drawn-cases :
      (server now : ℕ) (s : R.Store)
      → ((drawn_at server now s).allowed == 1) ≡ false
      → (drawn_at server now s).allowed ≡ 0
  unfolding drawn draw
  drawn-cases server now s h = ground arith

  unlimited-allowed :
      (server now : ℕ) (s : R.Store)
      → is_unlimited limit ≡ true
      → (answer_at server now s).0.decision.allowed ≡ true
  unfolding allow
  unlimited-allowed server now s h = rw h refl

  -- A refusal's wait is exact: the next request under the key, if it runs then, is allowed if that
  -- many milliseconds have passed, and refused before.
  pub retry_after-exact :
      (server now server' now' : ℕ) (s : R.Store)
      → (answer_at server now s).0.decision.allowed ≡ false
      → Synced server now
      → Synced server' now'
      → server ≤ server'
      → now ≤ now'
      → ((answer_at server' now' (answer_at server now s).1).0.decision.allowed ≡ true)
        ↔ (now + (answer_at server now s).0.decision.retry_after ≤ now')
  retry_after-exact server now server' now' s refused sync sync' le le' =
      elim (Bool-cases (is_unlimited limit)) [
        | inl e ↦ absurd (ground (arith, unlimited-allowed server now s e))
        | inr e ↦ limited e
      ]
    where
      limited :
          is_unlimited limit ≡ false
          → ((answer_at server' now' (answer_at server now s).1).0.decision.allowed ≡ true)
            ↔ (now + (answer_at server now s).0.decision.retry_after ≤ now')
      limited e =
          let first = allow-drawn server now s e in
          let zero_drawn = drawn-cases server now s (sym first.0 ∙ refused) in
          let both = retry-drawn server now server' now' s e zero_drawn sync sync' le le' in
          rw
            (
              first.1,
              first.2,
              (allow-drawn server' now' (after_run R capacity num den (bucket_key key) server now s)
                  e).0,
            )
            (λ f. omega (arith, both.0 (ground arith)), λ f. ground (arith, both.1 (omega arith)))
