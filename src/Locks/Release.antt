-- ===== src/Locks/Release.antt =====
-- What backend/internal/locks/scripts/release.lua does to the lock keys.
use seatsync.Prelude.{
  ℕ, suc, ◌≤◌, ◌≡◌, refl, ap, false, ◌&&◌, none, List, [], ◌∷◌, Text, text_eq, text_eq→eq, arith,
  Bool-cases, inl, inr, if◌then◌else◌,
}
use seatsync.Locks.Redis.{Redis}
use seatsync.Locks.Scripts.{Target, holds_value, release_script}
use seatsync.Locks.Acquire.{has_key}

module _ (R : Redis) (now : ℕ) (value reserved : Text) where
  -- The store after one lock is dropped.
  abbrev drop_lock : Target → R.Store → R.Store
  drop_lock t s = R.zrem now reserved t.seat (R.del now t.key s)

  get-drop_lock :
      (t : Target) (s : R.Store) (t' : ℕ) (j : Text)
      → now ≤ t'
      → text_eq j reserved ≡ false
      → R.get t' j (drop_lock t s) ≡ (if text_eq j t.key then none else R.get t' j s)
  get-drop_lock t s t' j later off =
      rw (R.get-zrem now t' j reserved t.seat (R.del now t.key s) off)
        (R.get-del now t' j t.key s later)

  -- A release drops the locks with the caller's value under the keys that it is given, and changes
  -- no other string key: at any later time, a key other than the reserved set's has no value if it
  -- was among them and held the caller's value, and else the value that it would have had.
  pub get-release_script :
      (ts : List Target) (released : ℕ) (s : R.Store) (t' : ℕ) (j : Text)
      → now ≤ t'
      → text_eq j reserved ≡ false
      → R.get t' j (release_script R now value reserved ts released s).1
        ≡ (if has_key j ts && holds_value value (R.get now j s) then none else R.get t' j s)
  unfolding release_script has_key
  get-release_script [] released s t' j later off = refl
  get-release_script (t ∷ ts) released s t' j later off = elim (Bool-cases (text_eq j t.key)) [
    | inl same ↦
        let e = text_eq→eq j t.key same in
        ground (
          arith,
          ap (λ k. R.get now k s) e,
          get-release_script ts (suc released) (drop_lock t s) t' j later off,
          get-release_script ts released s t' j later off,
          get-drop_lock t s t' j later off,
          get-drop_lock t s now j,
        )
    | inr differ ↦ ground (
      arith,
      get-release_script ts (suc released) (drop_lock t s) t' j later off,
      get-release_script ts released s t' j later off,
      get-drop_lock t s t' j later off,
      get-drop_lock t s now j,
    )
  ]
