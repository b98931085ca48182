-- ===== src/RateLimit/Memory.antt =====
-- The limiter's reference: a meter in memory that drains at the rate and that nothing ever drops. A
-- bucket counts the tokens that are there, the meter what has been used and has not drained yet.
use native.Mathlib.Nat.{one-mul}
use seatsync.Prelude.{
  ℕ, ◌+◌, ◌-◌, ◌*◌, ◌/◌, ◌≤◌, ◌≡◌, refl, ap, ◌∙◌, Bool, true, false, none, some, List, [], ◌∷◌,
  Text, arith, nat_abs, leb, ◌==◌, if◌then◌else◌, ceil_div, smaller, inl, inr, Bool-cases,
}
use seatsync.Services.World.{Fate, served, lost, answer_lost}
use seatsync.RateLimit.Buckets.{BucketStore}
use seatsync.RateLimit.Script.{unit, refill, Draw, draw}
use seatsync.RateLimit.Limiter.{
  Limit, Answer, script_failed, read_reply, run_script, allow, bucket_key, is_unlimited,
}
use seatsync.RateLimit.Refill.{Synced, level, drawn, after_run, bucket_script-drawn, level-script}

-- When a request runs, by the server's time and the caller's, and what becomes of the run.
pub record Time : Type 0 where
  pub fate : Fate
  pub server : ℕ
  pub now : ℕ

abbrev pub Ordered : ℕ → ℕ → List Time → Type 0
Ordered server now [] = Unit {0}
Ordered server now (t ∷ ts) =
    (server ≤ t.server) × (now ≤ t.now) × Synced t.server t.now × Ordered t.server t.now ts

-- How much is in the meter, and since when.
pub record Meter : Type 0 where
  pub used : ℕ
  pub since : ℕ

abbrev pub empty_meter : Meter
empty_meter = record { used = 0; since = 0 }

module _ (capacity num den : ℕ) where
  -- What has not drained by the time.
  abbrev pub undrained : ℕ → Meter → ℕ
  undrained now m = m.used - (now - m.since) * num

  -- One token more goes in if the meter has room for it.
  abbrev pub has_room : ℕ → Meter → Bool
  has_room now m = leb (undrained now m + unit den) (capacity * unit den)

  abbrev pub used_after : ℕ → Meter → ℕ
  used_after now m = undrained now m + (if has_room now m then unit den else 0)

  abbrev pub metered : ℕ → Meter → Meter
  metered now m = record { used = used_after now m; since = now }

  -- The whole tokens for which there is still room, and without room for one the milliseconds until
  -- there is.
  abbrev pub meter_answer : ℕ → Meter → Answer
  meter_answer now m = record {
    decision = record {
      allowed = has_room now m;
      remaining = (capacity * unit den - used_after now m) / unit den;
      retry_after =
          if has_room now m
          then 0
          else ceil_div (undrained now m + unit den - capacity * unit den) num;
    };
    error = none;
  }

  -- A failed run lets the request through with an error.
  abbrev pub fail_open : Answer
  fail_open = record {
    decision = record { allowed = true; remaining = 0; retry_after = 0 };
    error = some script_failed;
  }

  abbrev pub answer_by_fate : Fate → Answer → Answer
  answer_by_fate served a = a
  answer_by_fate lost a = fail_open
  answer_by_fate answer_lost a = fail_open

  -- A run that never took effect is not metered, one whose answer is lost is.
  abbrev pub meter_by_fate : Fate → Meter → Meter → Meter
  meter_by_fate served m m' = m'
  meter_by_fate lost m m' = m
  meter_by_fate answer_lost m m' = m'

  -- The answers of a meter in memory.
  unfoldable pub memory_answers : List Time → Meter → List Answer
  memory_answers [] m = []
  memory_answers (t ∷ ts) m =
      answer_by_fate t.fate (meter_answer t.now m)
      ∷ memory_answers ts (meter_by_fate t.fate m (metered t.now m))

draw-metered :
    (cost num full used : ℕ)
    → used ≤ full
    → let d = draw cost num (full - used) in
      (d.left ≡ full - (used + (if leb (used + cost) full then cost else 0)))
      × ((d.allowed == 1) ≡ leb (used + cost) full)
      × (d.retry_after ≡ (if leb (used + cost) full then 0 else ceil_div (used + cost - full) num))
unfolding draw
draw-metered cost num full used le =
    let room : leb cost (full - used) ≡ leb (used + cost) full = ground arith in
    let short : cost - (full - used) ≡ used + cost - full = omega arith in
    rw (room, short)
      (elim (Bool-cases (leb (used + cost) full)) [
        | inl e ↦ rw e (ground arith, refl, refl)
        | inr e ↦ rw e (ground arith, refl, refl)
      ])

-- What drains makes room.
room-later :
    (full used time : ℕ) → used ≤ full → smaller full (full - used + time) ≡ full - (used - time)
room-later full used time le = ground arith

module _ (R : BucketStore) (key : Text) (limit : Limit) where
  unfoldable pub answers : List Time → R.Store → List Answer
  answers [] s = []
  answers (t ∷ ts) s = let (a, s') = allow R t.fate t.server t.now key limit s in a ∷ answers ts s'

  abbrev capacity : ℕ
  capacity = nat_abs limit.burst

  abbrev num : ℕ
  num = nat_abs (limit.per_second).num

  abbrev den : ℕ
  den = (limit.per_second).den

  abbrev full : ℕ
  full = capacity * unit den

  abbrev drawn_here : ℕ → ℕ → R.Store → Draw
  drawn_here = drawn R capacity num den (bucket_key key)

  -- The meter is not over full, and from now on a request finds in Redis what the meter has room for.
  abbrev Stands : ℕ → ℕ → R.Store → Meter → Type 0
  Stands server now s m =
      (m.used ≤ full)
      × ((server' now' : ℕ)
          → Synced server' now'
          → server ≤ server'
          → now ≤ now'
          → level R capacity num den (bucket_key key) server' now' s
            ≡ full - undrained capacity num den now' m)

  -- The room of the meter is what the script draws from.
  drawn-metered :
      (server now : ℕ) (s : R.Store) (m : Meter)
      → Synced server now
      → Stands server now s m
      → ((drawn_here server now s).left ≡ full - used_after capacity num den now m)
        × (((drawn_here server now s).allowed == 1) ≡ has_room capacity num den now m)
        × ((drawn_here server now s).retry_after ≡ (
            if has_room capacity num den now m
            then 0
            else ceil_div (undrained capacity num den now m + unit den - full) num))
  unfolding drawn
  drawn-metered server now s m sync (small, st) =
      rw (st server now sync (omega arith) (omega arith), one-mul (unit den))
        (draw-metered (unit den) num full (undrained capacity num den now m) (omega arith))

  after_run-Stands :
      (server now : ℕ) (s : R.Store) (m : Meter)
      → is_unlimited limit ≡ false
      → Synced server now
      → Stands server now s m
      → Stands server now
          (after_run R capacity num den (bucket_key key) server now s)
          (metered capacity num den now m)
  after_run-Stands server now s m h sync (small, st) =
      let fits : used_after capacity num den now m ≤ full = ground arith in
      (
        fits,
        λ t u sync' le le'.
            level-script R capacity num den (bucket_key key) server now t u s (ground arith) sync
              sync' le le'
            ∙ ap (λ x. smaller full (x + (u - now) * num))
                (drawn-metered server now s m sync (small, st)).0
            ∙ room-later full (used_after capacity num den now m) ((u - now) * num) fits,
      )

  -- The state after a call, by what becomes of its run.
  abbrev store_by_fate : Fate → R.Store → R.Store → R.Store
  store_by_fate served s s' = s'
  store_by_fate lost s s' = s
  store_by_fate answer_lost s s' = s'

  drawn_answer : ℕ → ℕ → R.Store → Answer
  drawn_answer server now s = record {
    decision = record {
      allowed = (drawn_here server now s).allowed == 1;
      remaining = (drawn_here server now s).left / unit den;
      retry_after = (drawn_here server now s).retry_after;
    };
    error = none;
  }

  drawn_answer-metered :
      (server now : ℕ) (s : R.Store) (m : Meter)
      → Synced server now
      → Stands server now s m
      → drawn_answer server now s ≡ meter_answer capacity num den now m
  unfolding drawn_answer
  drawn_answer-metered server now s m sync st =
      let same = drawn-metered server now s m sync st in rw (same.0, same.1, same.2) refl

  allow-by_fate :
      (fate : Fate) (server now : ℕ) (s : R.Store)
      → is_unlimited limit ≡ false
      → allow R fate server now key limit s ≡ (
        answer_by_fate capacity num den fate (drawn_answer server now s),
        store_by_fate fate s (after_run R capacity num den (bucket_key key) server now s),
      )
  unfolding allow run_script read_reply drawn_answer
  allow-by_fate served server now s h =
      rw (h, bucket_script-drawn R capacity num den (bucket_key key) server now s) refl
  allow-by_fate lost server now s h = rw h refl
  allow-by_fate answer_lost server now s h = rw h refl

  by_fate-Stands :
      (fate : Fate) (server now : ℕ) (s : R.Store) (m : Meter)
      → is_unlimited limit ≡ false
      → Synced server now
      → Stands server now s m
      → Stands server now
          (store_by_fate fate s (after_run R capacity num den (bucket_key key) server now s))
          (meter_by_fate capacity num den fate m (metered capacity num den now m))
  by_fate-Stands served server now s m h sync st = after_run-Stands server now s m h sync st
  by_fate-Stands lost server now s m h sync st = st
  by_fate-Stands answer_lost server now s m h sync st = after_run-Stands server now s m h sync st

  answers-Stands :
      (server now : ℕ) (ts : List Time) (s : R.Store) (m : Meter)
      → is_unlimited limit ≡ false
      → Ordered server now ts
      → Stands server now s m
      → answers ts s ≡ memory_answers capacity num den ts m
  unfolding answers memory_answers
  answers-Stands server now [] s m h order st = refl
  answers-Stands server now (t ∷ ts) s m h (le, le', sync, order) (small, st) =
      let later : Stands t.server t.now s m =
        (small, λ u v sync' p q. st u v sync' (omega arith) (omega arith)) in
      let rest =
        answers-Stands t.server t.now ts
          (store_by_fate t.fate s (after_run R capacity num den (bucket_key key) t.server t.now s))
          (meter_by_fate capacity num den t.fate m (metered capacity num den t.now m)) h order
          (by_fate-Stands t.fate t.server t.now s m h sync later) in
      rw
        (
          allow-by_fate t.fate t.server t.now s h,
          rest,
          drawn_answer-metered t.server t.now s m sync later,
        )
        refl

  -- A client that Redis does not know gets, request by request, the answers of a meter in memory that
  -- starts empty, drains at the rate and is never dropped, although the bucket in Redis expires: it
  -- lets a request through if there is room for a token, and with an error if the run of the script
  -- fails. The limit is positive, times do not go back, the clocks are within half a minute of the
  -- server's, and all requests are of this client.
  pub answers-memory :
      (server now : ℕ) (ts : List Time) (s : R.Store)
      → is_unlimited limit ≡ false
      → Ordered server now ts
      → ((t : ℕ) → R.hmget t (bucket_key key) s ≡ (none, none))
      → answers ts s ≡ memory_answers capacity num den ts empty_meter
  unfolding level refill
  answers-memory server now ts s h order unseen =
      answers-Stands server now ts s empty_meter h order (omega arith, fresh)
    where
      fresh :
          (t u : ℕ)
          → Synced t u
          → server ≤ t
          → now ≤ u
          → level R capacity num den (bucket_key key) t u s
            ≡ full - undrained capacity num den u empty_meter
      fresh t u sync p q = rw (unseen t) (ground arith)
