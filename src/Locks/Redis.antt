-- ===== src/Locks/Redis.antt =====
-- The Redis commands that the scripts of backend/internal/locks/scripts call, as the server's
-- documentation describes them. A store is what the server holds; each command is given the
-- server's time in milliseconds. The sorted set's own contents are left open.
use seatsync.Prelude.{
  ℕ, ◌+◌, ◌*◌, ◌≤◌, ◌<◌, ◌≡◌, Bool, true, false, Option, none, some, List, Text, text_eq, ltb,
  if◌then◌else◌,
}

pub record Redis : Type 1 where
  pub Store : Type 0
  pub get : ℕ → Text → Store → Option Text
  -- SET key value NX EX seconds: whether it wrote.
  pub set_nx_ex : ℕ → Text → Text → ℕ → Store → Bool × Store
  pub del : ℕ → Text → Store → Store
  pub zadd : ℕ → Text → ℕ → Text → Store → Store
  pub zrem : ℕ → Text → Text → Store → Store
  pub expire : ℕ → Text → ℕ → Store → Store
  -- ZREMRANGEBYSCORE key -inf score, ZRANGEBYSCORE key (score +inf WITHSCORES
  pub zremrangebyscore : ℕ → Text → ℕ → Store → Store
  pub zrangebyscore : ℕ → Text → ℕ → Store → List (Text × ℕ)
  pub set-held :
      (now : ℕ) (k v : Text) (ttl : ℕ) (s : Store) {w : Text}
      → get now k s ≡ some w
      → set_nx_ex now k v ttl s ≡ (false, s)
  pub set-free :
      (now : ℕ) (k v : Text) (ttl : ℕ) (s : Store)
      → 0 < ttl
      → get now k s ≡ none
      → (set_nx_ex now k v ttl s).0 ≡ true
  pub get-set_self :
      (now t : ℕ) (k v : Text) (ttl : ℕ) (s : Store)
      → 0 < ttl
      → get now k s ≡ none
      → now ≤ t
      → get t k (set_nx_ex now k v ttl s).1 ≡ (if ltb t (now + 1000 * ttl) then some v else none)
  pub get-set_ne :
      (now t : ℕ) (j k v : Text) (ttl : ℕ) (s : Store)
      → text_eq j k ≡ false
      → get t j (set_nx_ex now k v ttl s).1 ≡ get t j s
  pub get-del :
      (now t : ℕ) (j k : Text) (s : Store)
      → now ≤ t
      → get t j (del now k s) ≡ (if text_eq j k then none else get t j s)
  pub get-zadd :
      (now t : ℕ) (j z : Text) (score : ℕ) (member : Text) (s : Store)
      → text_eq j z ≡ false
      → get t j (zadd now z score member s) ≡ get t j s
  pub get-zrem :
      (now t : ℕ) (j z member : Text) (s : Store)
      → text_eq j z ≡ false
      → get t j (zrem now z member s) ≡ get t j s
  pub get-expire :
      (now t : ℕ) (j z : Text) (ttl : ℕ) (s : Store)
      → text_eq j z ≡ false
      → get t j (expire now z ttl s) ≡ get t j s
  pub get-zremrangebyscore :
      (now t : ℕ) (j z : Text) (score : ℕ) (s : Store)
      → text_eq j z ≡ false
      → get t j (zremrangebyscore now z score s) ≡ get t j s
