-- ===== src/Locks/Scripts.antt =====
-- The Lua scripts acquire, release and held of backend/internal/locks/scripts, which Redis runs as
-- one step, and the lookups of `HoldsFor`. A target is a lock key with the text of its seat's id.
-- A lock key only ever holds a string, so EXISTS on it is whether GET has a value; scores are numbers.
use seatsync.Prelude.{
  ℕ, suc, ◌+◌, Bool, true, false, Option, none, some, List, [], ◌∷◌, ◌++◌, Text, text_eq,
  if◌then◌else◌,
}
use seatsync.Locks.Redis.{Redis}

pub record Target : Type 0 where
  pub key : Text
  pub seat : Text

-- The script's reply: the seats that were taken (none of them if it acquired all), or its error.
pub data AcquireReply : Type 0 where
  unavailable : List Text → AcquireReply
  contention : Text → AcquireReply

abbrev pub holds : Option Text → Bool
holds none = false
holds (some v) = true

abbrev pub holds_value : Text → Option Text → Bool
holds_value v none = false
holds_value v (some w) = text_eq w v

-- One entry of the held script's reply: the seat, its expiry and its lock's value.
abbrev pub HeldEntry : Type 0
HeldEntry = Text × ℕ × Text

module _ (R : Redis) where
  unfoldable pub taken_seats : ℕ → List Target → R.Store → List Text
  taken_seats now [] s = []
  taken_seats now (t ∷ ts) s =
      let rest = taken_seats now ts s in if holds (R.get now t.key s) then t.seat ∷ rest else rest

  -- The writes, in order; an error leaves those made before it.
  unfoldable pub take_locks :
      ℕ → Text → ℕ → Text → ℕ → List Target → R.Store → AcquireReply × R.Store
  take_locks now value ttl reserved expires_at [] s =
      (unavailable [], R.expire now reserved (ttl + 60) s)
  take_locks now value ttl reserved expires_at (t ∷ ts) s =
      let written = R.set_nx_ex now t.key value ttl s in
      let rest =
        take_locks now value ttl reserved expires_at ts
          (R.zadd now reserved expires_at t.seat written.1) in
      if written.0 then rest else (contention t.seat, written.1)

  abbrev pub unless_taken : List Text → AcquireReply × R.Store → R.Store → AcquireReply × R.Store
  unless_taken [] acquired s = acquired
  unless_taken (x ∷ xs) acquired s = (unavailable (x ∷ xs), s)

  unfoldable pub acquire_script :
      ℕ → Text → ℕ → Text → ℕ → List Target → R.Store → AcquireReply × R.Store
  acquire_script now value ttl reserved expires_at ts s =
      unless_taken (taken_seats now ts s) (take_locks now value ttl reserved expires_at ts s) s

  unfoldable pub release_script : ℕ → Text → Text → List Target → ℕ → R.Store → ℕ × R.Store
  release_script now value reserved [] released s = (released, s)
  release_script now value reserved (t ∷ ts) released s =
      let dropped =
        release_script now value reserved ts (suc released)
          (R.zrem now reserved t.seat (R.del now t.key s)) in
      let kept = release_script now value reserved ts released s in
      if holds_value value (R.get now t.key s) then dropped else kept

  abbrev pub add_entry : Text → ℕ → Option Text → List HeldEntry → List HeldEntry
  add_entry seat expires_at none entries = entries
  add_entry seat expires_at (some value) entries = (seat, expires_at, value) ∷ entries

  unfoldable pub held_entries : ℕ → Text → List (Text × ℕ) → R.Store → List HeldEntry
  held_entries now prefix [] s = []
  held_entries now prefix ((seat, expires_at) ∷ ms) s =
      add_entry seat expires_at (R.get now (prefix ++ seat) s) (held_entries now prefix ms s)

  unfoldable pub held_script : ℕ → Text → ℕ → Text → R.Store → List HeldEntry × R.Store
  unfolding held_entries
  held_script now reserved score prefix s =
      let swept = R.zremrangebyscore now reserved score s in
      (held_entries now prefix (R.zrangebyscore now reserved score swept) swept, swept)
