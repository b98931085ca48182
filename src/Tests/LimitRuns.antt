-- ===== src/Tests/LimitRuns.antt =====
-- A caller with a burst of two and one token every two seconds, on a store of hashes kept as a list.
use seatsync.Prelude.{
  ℕ, map, ◌+◌, ◌-◌, ◌*◌, ◌≤◌, ◌≡◌, ◌↔◌, refl, true, false, Option, none, some, List, [], ◌∷◌, Text,
  text_eq, text_eq_refl, ltb, codes, if◌then◌else◌, pos, ceil_div, arith, subst, text_eq→eq,
  Bool-cases, inl, inr,
}
use seatsync.Services.World.{served, lost, answer_lost}
use seatsync.RateLimit.Buckets.{BucketStore, Fields}
use seatsync.RateLimit.Script.{bucket_script, refill, draw}
use seatsync.RateLimit.Limiter.{Limit, Answer, allow, run_script, read_reply}
use seatsync.RateLimit.Bound.{
  Request, HasLimit, count_admitted, count_unserved, count_admitted-bounded,
}
use seatsync.RateLimit.Retry.{answer_at, retry_after-exact}
use seatsync.RateLimit.Memory.{Time, answers, memory_answers, empty_meter, answers-memory}

-- One hash: its key, its fields and when it ends, if it does.
pub record Hash : Type 0 where
  pub key : Text
  pub tokens : ℕ
  pub updated : ℕ
  pub ends : Option ℕ

abbrev pub live_fields : ℕ → Hash → Option ℕ → Fields
live_fields now h none = (some h.tokens, some h.updated)
live_fields now h (some ends) =
    if ltb now ends then (some h.tokens, some h.updated) else (none, none)

unfoldable pub find_hash : ℕ → Text → List Hash → Fields
find_hash now k [] = (none, none)
find_hash now k (h ∷ hs) = if text_eq k h.key then live_fields now h h.ends else find_hash now k hs

unfoldable pub end_hash : Text → ℕ → List Hash → List Hash
end_hash k ends [] = []
end_hash k ends (h ∷ hs) =
    (if text_eq k h.key then record h { ends = some ends } else h) ∷ end_hash k ends hs

abbrev pub put_hash : Text → ℕ → ℕ → List Hash → List Hash
put_hash k tokens updated hs =
    record { key = k; tokens = tokens; updated = updated; ends = none } ∷ hs

pub find_hash-end_put :
    (now t : ℕ) (k : Text) (tokens updated ttl : ℕ) (hs : List Hash)
    → now ≤ t
    → find_hash t k (end_hash k (now + 1000 * ttl) (put_hash k tokens updated hs))
      ≡ (if ltb t (now + 1000 * ttl) then (some tokens, some updated) else (none, none))
unfolding find_hash end_hash
find_hash-end_put now t k tokens updated ttl hs h = rw (text_eq_refl k) (rw (text_eq_refl k) refl)

pub find_hash-put_ne :
    (now t : ℕ) (j k : Text) (tokens updated : ℕ) (hs : List Hash)
    → text_eq j k ≡ false
    → find_hash t j (put_hash k tokens updated hs) ≡ find_hash t j hs
unfolding find_hash
find_hash-put_ne now t j k tokens updated hs h = rw h refl

pub find_hash-end_ne :
    (now t : ℕ) (j k : Text) (ttl : ℕ) (hs : List Hash)
    → text_eq j k ≡ false
    → find_hash t j (end_hash k (now + 1000 * ttl) hs) ≡ find_hash t j hs
unfolding find_hash end_hash
find_hash-end_ne now t j k ttl [] h = refl
find_hash-end_ne now t j k ttl (e ∷ hs) h = elim (Bool-cases (text_eq k e.key)) [
  | inl same ↦
      let other : text_eq j e.key ≡ false =
        subst (λ (x : Text). text_eq j x ≡ false) (text_eq→eq k e.key same) h in
      rw same (rw other (find_hash-end_ne now t j k ttl hs h))
  | inr differ ↦ rw differ (rw (find_hash-end_ne now t j k ttl hs h) refl)
]

abbrev pub hashes : BucketStore
hashes = record {
  Store = List Hash;
  hmget = find_hash;
  hset = λ now k tokens updated hs. put_hash k tokens updated hs;
  expire = λ now k ttl hs. end_hash k (now + 1000 * ttl) hs;
  hmget-expire-hset_self = find_hash-end_put;
  hmget-hset_ne = find_hash-put_ne;
  hmget-expire_ne = find_hash-end_ne;
}

abbrev pub half_a_second : Limit
half_a_second = record { burst = pos 2; per_second = record { num = pos 1; den = 2 } }

abbrev alice : Text
alice = codes "write:user:a"

abbrev bob : Text
bob = codes "write:user:b"

abbrev request_at : Text → ℕ → Request
request_at key now = record {
  fate = served;
  server = now + 5;
  now = now;
  key = key;
  limit = half_a_second;
}

-- Three requests of one caller and one of another, one more whose run is lost, and another after two
-- seconds.
abbrev busy : List Request
busy =
    request_at alice 1000
    ∷ request_at alice 1001
    ∷ request_at bob 1002
    ∷ request_at alice 1003
    ∷ record (request_at alice 1004) { fate = lost }
    ∷ request_at alice 3003
    ∷ []

count_busy : count_admitted hashes alice busy [] ≡ 4
unfolding count_admitted allow run_script read_reply bucket_script refill draw ceil_div find_hash
    end_hash text_eq
count_busy = refl

same_limit : HasLimit alice half_a_second busy
same_limit = (λ e. refl, (λ e. refl, (λ e. refl, (λ e. refl, (λ e. refl, (λ e. refl, tt))))))

count_admitted-bounded_example :
    count_admitted hashes alice busy [] * 2000
    ≤ (2 + count_unserved alice busy) * 2000 + (3003 - 1000) * 1
count_admitted-bounded_example =
    count_admitted-bounded hashes alice half_a_second 1005 1000 busy [] refl same_limit
      (omega arith)

-- The store after two requests.
abbrev after_one : List Hash
after_one = (answer_at hashes alice half_a_second 1005 1000 []).1

abbrev after_two : List Hash
after_two = (answer_at hashes alice half_a_second 1006 1001 after_one).1

third : (answer_at hashes alice half_a_second 1008 1003 after_two).0 ≡ record {
  decision = record { allowed = false; remaining = 0; retry_after = 1997 };
  error = none;
}
unfolding allow run_script read_reply bucket_script refill draw ceil_div find_hash end_hash text_eq
third = refl

retry_after-exact_example :
    ((answer_at hashes alice half_a_second 3004 3000
        (answer_at hashes alice half_a_second 1008 1003 after_two).1).0.decision.allowed
      ≡ true)
    ↔ (1003 + (answer_at hashes alice half_a_second 1008 1003 after_two).0.decision.retry_after
        ≤ 3000)
unfolding allow run_script read_reply bucket_script refill draw ceil_div find_hash end_hash text_eq
retry_after-exact_example =
    retry_after-exact hashes alice half_a_second 1008 1003 3004 3000 after_two refl (omega arith)
      (omega arith) (omega arith) (omega arith)

-- The third finds no room, the fourth's run is lost, and the last one comes when the hash has expired.
abbrev times : List Time
times =
    record { fate = served; server = 1005; now = 1000 }
    ∷ record { fate = answer_lost; server = 1006; now = 1001 }
    ∷ record { fate = served; server = 1008; now = 1003 }
    ∷ record { fate = lost; server = 1009; now = 1004 }
    ∷ record { fate = served; server = 70000; now = 69990 }
    ∷ []

answers-memory_example :
    answers hashes alice half_a_second times [] ≡ memory_answers 2 1 2 times empty_meter
unfolding find_hash
answers-memory_example =
    answers-memory hashes alice half_a_second 1005 1000 times [] refl (omega arith) (λ t. refl)

memory_times :
    map (λ (a : Answer). (a.decision).allowed) (memory_answers 2 1 2 times empty_meter)
    ≡ true ∷ true ∷ false ∷ true ∷ true ∷ []
unfolding memory_answers ceil_div
memory_times = refl
