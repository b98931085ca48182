-- ===== src/Locks/Acquire.antt =====
-- What backend/internal/locks/scripts/acquire.lua does to the lock keys: all of them or none.
use seatsync.Prelude.{
  ℕ, ◌+◌, ◌*◌, ◌≤◌, ◌<◌, ◌≡◌, refl, Bool, false, ◌||◌, none, some, List, [], ◌∷◌, Text, text_eq,
  text_eq_comm, text_eq→eq, arith, ltb, All, Bool-cases, ◌⊎◌, inl, inr, if◌then◌else◌,
}
use seatsync.Locks.Redis.{Redis}
use seatsync.Locks.Scripts.{Target, unavailable, taken_seats, take_locks, acquire_script}

unfoldable pub has_key : Text → List Target → Bool
has_key k [] = false
has_key k (t ∷ ts) = text_eq k t.key || has_key k ts

abbrev pub DistinctKeys : List Target → Type 0
DistinctKeys [] = Unit
DistinctKeys (t ∷ ts) = (has_key t.key ts ≡ false) × DistinctKeys ts

abbrev pub Off : Text → Target → Type 0
Off reserved t = text_eq t.key reserved ≡ false

has_key-All :
    (k : Text) (ts : List Target) → has_key k ts ≡ false → All (λ t. text_eq t.key k ≡ false) ts
unfolding has_key
has_key-All k [] h = tt
has_key-All k (t ∷ ts) h = (ground (arith, text_eq_comm k t.key), has_key-All k ts (ground arith))

module _ (R : Redis) where
  abbrev pub Free : ℕ → R.Store → Target → Type 0
  Free now s t = R.get now t.key s ≡ none

  taken_seats-Free :
      (now : ℕ) (ts : List Target) (s : R.Store) → taken_seats R now ts s ≡ [] → All (Free now s) ts
  unfolding taken_seats
  taken_seats-Free now [] s h = tt
  taken_seats-Free now (t ∷ ts) s h = (ground arith, taken_seats-Free now ts s (ground arith))

  module _ (now ttl : ℕ) (value reserved : Text) (expires_at : ℕ) (positive : 0 < ttl) where
    -- The store after the first write.
    abbrev write : Target → R.Store → R.Store
    write t s = R.zadd now reserved expires_at t.seat (R.set_nx_ex now t.key value ttl s).1

    get-write :
        (t : Target) (s : R.Store) (t' : ℕ) (j : Text)
        → R.get now t.key s ≡ none
        → now ≤ t'
        → text_eq j reserved ≡ false
        → R.get t' j (write t s) ≡ (
            if text_eq j t.key
            then (if ltb t' (now + 1000 * ttl) then some value else none)
            else R.get t' j s)
    get-write t s t' j free later off =
        rw
          (R.get-zadd now t' j reserved expires_at t.seat (R.set_nx_ex now t.key value ttl s).1 off)
          (elim (Bool-cases (text_eq j t.key)) [
            | inl same ↦ rw same (
                rw (text_eq→eq j t.key same)
                  (R.get-set_self now t' t.key value ttl s positive free later))
            | inr differ ↦ rw differ (R.get-set_ne now t' j t.key value ttl s differ)
          ])

    -- The keys that are left are still free after the first write.
    write-Free :
        (t : Target) (ts : List Target) (s : R.Store)
        → R.get now t.key s ≡ none
        → has_key t.key ts ≡ false
        → All (Off reserved) ts
        → All (Free now s) ts
        → All (Free now (write t s)) ts
    unfolding has_key
    write-Free t [] s free distinct off frees = tt
    write-Free t (u ∷ ts) s free distinct off frees = (
      ground (arith, get-write t s now u.key free (omega arith) off.0, text_eq_comm t.key u.key),
      write-Free t ts s free (ground arith) off.1 frees.1,
    )

    take_locks-acquired :
        (ts : List Target) (s : R.Store)
        → DistinctKeys ts
        → All (Off reserved) ts
        → All (Free now s) ts
        → (take_locks R now value ttl reserved expires_at ts s).0 ≡ unavailable []
    unfolding take_locks
    take_locks-acquired [] s d o f = refl
    take_locks-acquired (t ∷ ts) s d o f =
        rw (R.set-free now t.key value ttl s positive f.0)
          (take_locks-acquired ts (write t s) d.1 o.1 (write-Free t ts s f.0 d.0 o.1 f.1))

    get-take_locks :
        (ts : List Target) (s : R.Store) (t' : ℕ) (j : Text)
        → DistinctKeys ts
        → All (Off reserved) ts
        → All (Free now s) ts
        → now ≤ t'
        → text_eq j reserved ≡ false
        → R.get t' j (take_locks R now value ttl reserved expires_at ts s).1 ≡ (
            if has_key j ts
            then (if ltb t' (now + 1000 * ttl) then some value else none)
            else R.get t' j s)
    unfolding take_locks has_key
    get-take_locks [] s t' j d o f later off = R.get-expire now t' j reserved (ttl + 60) s off
    get-take_locks (t ∷ ts) s t' j d o f later off =
        rw (R.set-free now t.key value ttl s positive f.0) (
          ground (
            arith,
            get-take_locks ts (write t s) t' j d.1 o.1 (write-Free t ts s f.0 d.0 o.1 f.1) later
                off,
            get-write t s t' j f.0 later off,
          ))

    -- All keys were free; each has the value until the lifetime is over, and no other string key
    -- has changed.
    abbrev pub Acquired : List Target → R.Store → Type 0
    Acquired ts s =
        All (Free now s) ts
        × ((acquire_script R now value ttl reserved expires_at ts s).0 ≡ unavailable [])
        × ((t' : ℕ) (j : Text)
            → now ≤ t'
            → text_eq j reserved ≡ false
            → R.get t' j (acquire_script R now value ttl reserved expires_at ts s).1 ≡ (
                if has_key j ts
                then (if ltb t' (now + 1000 * ttl) then some value else none)
                else R.get t' j s))

    -- Some keys were taken; the reply names their seats, and the store is as before.
    abbrev pub Refused : List Target → R.Store → Type 0
    Refused ts s =
        (x : Text) × (xs : List Text) × (taken_seats R now ts s ≡ x ∷ xs)
        × (acquire_script R now value ttl reserved expires_at ts s ≡ (unavailable (x ∷ xs), s))

    -- The script acquires every key or changes nothing. Given distinct keys, none of them the
    -- reserved set's, and a positive lifetime: either all keys were free, the reply is empty, and
    -- each key then has the value until the lifetime has passed while no other string key changed;
    -- or the reply names the seats whose keys were taken, at least one, and the store is as before.
    pub acquire_script-All_or_none :
        (ts : List Target) (s : R.Store)
        → DistinctKeys ts
        → All (Off reserved) ts
        → Acquired ts s ⊎ Refused ts s
    unfolding acquire_script
    acquire_script-All_or_none ts s d o = go (taken_seats R now ts s) refl
      where
        go : (taken : List Text) → taken_seats R now ts s ≡ taken → Acquired ts s ⊎ Refused ts s
        go [] e =
            let free = taken_seats-Free now ts s e in
            inl (
              free,
              rw (e, acquire_script) (take_locks-acquired ts s d o free),
              λ t' j later off.
                  rw (e, acquire_script) (get-take_locks ts s t' j d o free later off),
            )
        go (x ∷ xs) e = inr (x, xs, e, rw (e, acquire_script) refl)
