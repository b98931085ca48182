-- ===== src/RateLimit/Bound.antt =====
-- How many requests of one caller the limiter lets through, whatever other callers send between.
use seatsync.Prelude.{
  ℕ, ◌+◌, ◌-◌, ◌*◌, ◌≤◌, ◌<◌, ◌≡◌, refl, sym, ap, subst, ◌∙◌, true, false, none, some, List, [],
  ◌∷◌, Text, text_eq, text_eq→eq, text_eq_comm, ◌==◌, if◌then◌else◌, inl, inr, Bool-cases, arith,
  nat_abs,
}
use native.Mathlib.Nat.{add-mul, one-mul, mul-le-mul_right}
use seatsync.Services.World.{Fate, served, lost, answer_lost}
use seatsync.RateLimit.Buckets.{BucketStore}
use seatsync.RateLimit.Script.{unit, Draw, draw, bucket_script}
use seatsync.RateLimit.Limiter.{
  Limit, Answer, read_reply, run_script, allow, bucket_key, is_unlimited,
}
use seatsync.RateLimit.Refill.{
  Synced, level, drawn, level-le-full, bucket_script-drawn, level-script, level-script_ne,
}

-- One call of `Allow`: what becomes of it, when it runs, for whom and with which limit.
pub record Request : Type 0 where
  pub fate : Fate
  pub server : ℕ
  pub now : ℕ
  pub key : Text
  pub limit : Limit

-- 1 if the caller is let through: the decision allows it, whether or not there is an error beside it.
abbrev pub admitted : Answer → ℕ
admitted a = if (a.decision).allowed then 1 else 0

-- 1 if the script's run fails, before or after it takes effect.
abbrev pub unserved : Fate → ℕ
unserved served = 0
unserved lost = 1
unserved answer_lost = 1

-- 1 if the bucket let the request through.
abbrev granted : Answer → ℕ
granted a = elim a.error [ none ↦ if (a.decision).allowed then 1 else 0 | some e ↦ 0 ]

-- The times do not go back, and each caller's clock is near the server's.
abbrev pub InOrder : ℕ → ℕ → List Request → Type 0
InOrder server now [] = Unit {0}
InOrder server now (r ∷ rs) =
    (server ≤ r.server) × (now ≤ r.now) × Synced r.server r.now × InOrder r.server r.now rs

abbrev pub last_time : ℕ → List Request → ℕ
last_time now [] = now
last_time now (r ∷ rs) = last_time r.now rs

-- The requests under the key have the limit.
abbrev pub HasLimit : Text → Limit → List Request → Type 0
HasLimit key limit [] = Unit {0}
HasLimit key limit (r ∷ rs) = (text_eq r.key key ≡ true → r.limit ≡ limit) × HasLimit key limit rs

last_time-le : (server now : ℕ) (rs : List Request) → InOrder server now rs → now ≤ last_time now rs
last_time-le server now [] h = omega arith
last_time-le server now (r ∷ rs) h = omega (arith, last_time-le r.server r.now rs h.3)

draw-spends :
    (cost num tokens : ℕ)
    → (draw cost num tokens).allowed * cost + (draw cost num tokens).left ≡ tokens
unfolding draw
draw-spends cost num tokens = ground arith

draw-one :
    (cost num tokens : ℕ)
    → (if (draw cost num tokens).allowed == 1 then 1 else 0) ≡ (draw cost num tokens).allowed
unfolding draw
draw-one cost num tokens = ground arith

bucket_key-ne : (j k : Text) → text_eq j k ≡ false → text_eq (bucket_key j) (bucket_key k) ≡ false
unfolding text_eq
bucket_key-ne j k h = h

unfoldable pub count_unserved : Text → List Request → ℕ
count_unserved key [] = 0
count_unserved key (r ∷ rs) =
    (if text_eq r.key key then unserved r.fate else 0) + count_unserved key rs

module _ (R : BucketStore) where
  abbrev pub serve : Request → R.Store → Answer × R.Store
  serve r s = allow R r.fate r.server r.now r.key r.limit s

  -- How many requests under the key are let through, and for how many the script's run fails.
  unfoldable pub count_admitted : Text → List Request → R.Store → ℕ
  count_admitted key [] s = 0
  count_admitted key (r ∷ rs) s =
      (if text_eq r.key key then admitted (serve r s).0 else 0)
      + count_admitted key rs (serve r s).1

  unfoldable count_granted : Text → List Request → R.Store → ℕ
  count_granted key [] s = 0
  count_granted key (r ∷ rs) s =
      (if text_eq r.key key then granted (serve r s).0 else 0) + count_granted key rs (serve r s).1

  -- A failed run lets its request through, and no more than that.
  admitted-le :
      (fate : Fate) (server now : ℕ) (key : Text) (limit : Limit) (s : R.Store)
      → admitted (allow R fate server now key limit s).0
        ≤ granted (allow R fate server now key limit s).0 + unserved fate
  unfolding allow run_script read_reply bucket_script
  admitted-le fate server now key limit s = elim (Bool-cases (is_unlimited limit)) [
    | inl e ↦ rw e (omega arith)
    | inr e ↦ rw e (by_fate fate)
  ]
    where
      by_fate :
          (f : Fate)
          → let reply =
              bucket_script R server
                (bucket_key key)
                (nat_abs limit.burst)
                (nat_abs (limit.per_second).num)
                (limit.per_second).den
                now
                1
                s in
            admitted (run_script R f reply s).0 ≤ granted (run_script R f reply s).0 + unserved f
      by_fate served = omega arith
      by_fate lost = omega arith
      by_fate answer_lost = omega arith

  count_admitted-le :
      (key : Text) (rs : List Request) (s : R.Store)
      → count_admitted key rs s ≤ count_granted key rs s + count_unserved key rs
  unfolding count_admitted count_granted count_unserved
  count_admitted-le key [] s = omega arith
  count_admitted-le key (r ∷ rs) s =
      let rest = count_admitted-le key rs (serve r s).1 in
      let one = admitted-le r.fate r.server r.now r.key r.limit s in
      elim (Bool-cases (text_eq r.key key)) [
        | inl e ↦ rw e (omega (arith, rest, one))
        | inr e ↦ rw e (omega (arith, rest))
      ]

module _ (R : BucketStore) (key : Text) (limit : Limit) where
  abbrev capacity : ℕ
  capacity = nat_abs limit.burst

  abbrev num : ℕ
  num = nat_abs (limit.per_second).num

  abbrev den : ℕ
  den = (limit.per_second).den

  abbrev here : ℕ → ℕ → R.Store → ℕ
  here = level R capacity num den (bucket_key key)

  -- From now on a request finds at most `x` units and what accrues.
  abbrev Capped : ℕ → ℕ → ℕ → R.Store → Type 0
  Capped x server now s =
      (server' now' : ℕ)
      → Synced server' now'
      → server ≤ server'
      → now ≤ now'
      → here server' now' s ≤ x + (now' - now) * num

  -- What one request does to the bound: `n` units go.
  abbrev Spends : ℕ → ℕ → ℕ → ℕ → ℕ → ℕ → R.Store → Type 0
  Spends x server now n server' now' s' =
      (x' : ℕ) × Capped x' server' now' s' × (n * unit den + x' ≤ x + (now' - now) * num)

  abbrev run_here : ℕ → ℕ → R.Store → List ℕ × R.Store
  run_here server now s = bucket_script R server (bucket_key key) capacity num den now 1 s

  -- A request that leaves the bucket as it is.
  Capped-idle :
      (x server now server' now' : ℕ) (s s' : R.Store)
      → server ≤ server'
      → now ≤ now'
      → ((server'' now'' : ℕ) → here server'' now'' s' ≡ here server'' now'' s)
      → Capped x server now s
      → Spends x server now 0 server' now' s'
  Capped-idle x server now server' now' s s' le le' same c = (
    x + (now' - now) * num,
    λ t u sync p q. omega (arith, same t u, c t u sync (omega arith) (omega arith), split u q),
    omega arith,
  )
    where
      split : (u : ℕ) → now' ≤ u → (u - now) * num ≡ (now' - now) * num + (u - now') * num
      split u q =
          let e : u - now ≡ (now' - now) + (u - now') = omega arith in
          ap (λ (t : ℕ). t * num) e ∙ add-mul (now' - now) (u - now') num

  abbrev drawn_here : ℕ → ℕ → R.Store → Draw
  drawn_here = drawn R capacity num den (bucket_key key)

  Capped-run :
      (x server now server' now' : ℕ) (s : R.Store)
      → 0 < num
      → Synced server' now'
      → server ≤ server'
      → now ≤ now'
      → Capped x server now s
      → Spends x server now
          (drawn_here server' now' s).allowed
          server'
          now'
          (run_here server' now' s).1
  unfolding drawn
  Capped-run x server now server' now' s p sync le le' c = (
    (drawn_here server' now' s).left,
    λ t u sync' q q'. ground (
      arith,
      level-script R capacity num den (bucket_key key) server' now' t u s p sync sync' q q',
    ),
    omega (
      arith,
      draw-spends (1 * unit den) num (here server' now' s),
      c server' now' sync le le',
      ap (λ (t : ℕ). (drawn_here server' now' s).allowed * t) (one-mul (unit den)),
    ),
  )

  Spends-none :
      (x server now n server' now' : ℕ) (s' : R.Store)
      → Spends x server now n server' now' s'
      → Spends x server now 0 server' now' s'
  Spends-none x server now n server' now' s' (x', c, e) = (x', c, omega arith)

  abbrev allow_here : Fate → ℕ → ℕ → R.Store → Answer × R.Store
  allow_here fate server now s = allow R fate server now key limit s

  limited : is_unlimited limit ≡ false → 0 < num
  limited h = ground arith

  Capped-allow :
      (fate : Fate) (x server now server' now' : ℕ) (s : R.Store)
      → is_unlimited limit ≡ false
      → Synced server' now'
      → server ≤ server'
      → now ≤ now'
      → Capped x server now s
      → Spends x server now
          (granted (allow_here fate server' now' s).0)
          server'
          now'
          (allow_here fate server' now' s).1
  unfolding allow run_script read_reply drawn
  Capped-allow served x server now server' now' s h sync le le' c =
      rw
        (
          h,
          bucket_script-drawn R capacity num den (bucket_key key) server' now' s,
          draw-one (1 * unit den) num (here server' now' s),
        )
        (Capped-run x server now server' now' s (limited h) sync le le' c)
  Capped-allow lost x server now server' now' s h sync le le' c =
      rw h (Capped-idle x server now server' now' s s le le' (λ t u. refl) c)
  Capped-allow answer_lost x server now server' now' s h sync le le' c = rw h (
      Spends-none x server now (drawn_here server' now' s).allowed server' now'
        (run_here server' now' s).1
        (Capped-run x server now server' now' s (limited h) sync le le' c))

  level-allow_ne :
      (fate : Fate) (server now t u : ℕ) (k : Text) (other : Limit) (s : R.Store)
      → text_eq k key ≡ false
      → here t u (allow R fate server now k other s).1 ≡ here t u s
  unfolding allow run_script
  level-allow_ne fate server now t u k other s h = elim (Bool-cases (is_unlimited other)) [
    | inl none_run ↦ rw none_run refl
    | inr run ↦ rw run (go fate)
  ]
    where
      reply : List ℕ × R.Store
      reply =
          bucket_script R server (bucket_key k) (nat_abs other.burst)
            (nat_abs (other.per_second).num) (other.per_second).den now 1 s

      kept : here t u reply.1 ≡ here t u s
      kept =
          level-script_ne R capacity num den (bucket_key key) server now t u (bucket_key k) _ _ _ 1
            s (bucket_key-ne key k (text_eq_comm key k ∙ h))

      go : (f : Fate) → here t u (run_script R f reply s).1 ≡ here t u s
      go served = kept
      go lost = refl
      go answer_lost = kept

  Spends-serve :
      (r : Request) (x server now : ℕ) (s : R.Store)
      → is_unlimited limit ≡ false
      → (text_eq r.key key ≡ true → r.limit ≡ limit)
      → Synced r.server r.now
      → server ≤ r.server
      → now ≤ r.now
      → Capped x server now s
      → Spends x server now
          (if text_eq r.key key then granted (serve R r s).0 else 0)
          r.server
          r.now
          (serve R r s).1
  Spends-serve r x server now s h same sync le le' c = elim (Bool-cases (text_eq r.key key)) [
    | inl e ↦ rw e (
        subst
          (λ (k : Text).
            Spends x server now (granted (allow R r.fate r.server r.now k r.limit s).0) r.server
              r.now (allow R r.fate r.server r.now k r.limit s).1)
          (sym (text_eq→eq r.key key e))
          (subst
            (λ (l : Limit).
              Spends x server now (granted (allow R r.fate r.server r.now key l s).0) r.server r.now
                (allow R r.fate r.server r.now key l s).1)
            (sym (same e)) (Capped-allow r.fate x server now r.server r.now s h sync le le' c)))
    | inr e ↦ rw e (
        Capped-idle x server now r.server r.now s (serve R r s).1 le le'
          (λ t u. level-allow_ne r.fate r.server r.now t u r.key r.limit s e) c)
  ]

  count_granted-Capped :
      (x server now : ℕ) (rs : List Request) (s : R.Store)
      → is_unlimited limit ≡ false
      → HasLimit key limit rs
      → InOrder server now rs
      → Capped x server now s
      → count_granted R key rs s * unit den ≤ x + (last_time now rs - now) * num
  unfolding count_granted
  count_granted-Capped x server now [] s h same order c = omega arith
  count_granted-Capped x server now (r ∷ rs) s h (same, sames) (le, le', sync, order) c =
      let one = Spends-serve r x server now s h same sync le le' c in
      let rest = count_granted-Capped one.0 r.server r.now rs (serve R r s).1 h sames order one.1 in
      let e : last_time r.now rs - now ≡ (last_time r.now rs - r.now) + (r.now - now) =
        omega (arith, last_time-le r.server r.now rs order) in
      omega (
        arith,
        one.2,
        rest,
        ap (λ (t : ℕ). t * num) e,
        add-mul (last_time r.now rs - r.now) (r.now - now) num,
        add-mul (if text_eq r.key key then granted (serve R r s).0 else 0)
            (count_granted R key rs (serve R r s).1) (unit den),
      )

  -- From any state, the requests under a key with a positive limit that `Allow` lets through
  -- between the times `now` and `last`, whatever is sent under other keys, are at most the burst,
  -- what the rate allows for that time, and one for each of these requests whose run of the script
  -- fails, if times do not go back and the clocks of the instances are within half a minute of the
  -- server's.
  pub count_admitted-bounded :
      (server now : ℕ) (rs : List Request) (s : R.Store)
      → is_unlimited limit ≡ false
      → HasLimit key limit rs
      → InOrder server now rs
      → count_admitted R key rs s * unit den
        ≤ (capacity + count_unserved key rs) * unit den + (last_time now rs - now) * num
  count_admitted-bounded server now rs s h same order =
      let granted_ones =
        count_granted-Capped (capacity * unit den) server now rs s h same order (λ t u sync p q.
          omega (arith, level-le-full R capacity num den (bucket_key key) t u s)) in
      let scaled = mul-le-mul_right (unit den) (count_admitted-le R key rs s) in
      omega (
        arith,
        granted_ones,
        scaled,
        add-mul (count_granted R key rs s) (count_unserved key rs) (unit den),
        add-mul capacity (count_unserved key rs) (unit den),
      )
