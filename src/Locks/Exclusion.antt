-- ===== src/Locks/Exclusion.antt =====
-- What the calls of backend/internal/locks/locks.go promise about who holds which seat.
use mathlib.Core.Bool.{false≢true}
use seatsync.Prelude.{
  ℕ, ◌+◌, ◌*◌, ◌/◌, ◌≤◌, ◌<◌, ◌≡◌, refl, ap, subst, Bool, true, ◌&&◌, ◌⊎◌, ◌↔◌, Option, none, some,
  List, [], ◌∷◌, Text, text_eq, text_eq_refl, text_eq→eq, text_eq_ne, arith, ltb, ◌==◌, All,
  Distinct, contains, Bool-cases, Option-cases, Result-cases, Result, ok, err, inl, inr,
  if◌then◌else◌,
}
use seatsync.Locks.Uuids.{UuidCodec}
use seatsync.Locks.Keys.{
  lock_value, lock_key, reserved_key, lock_key-injective, lock_key-ne-reserved_key,
}
use seatsync.Locks.Redis.{Redis}
use seatsync.Locks.Scripts.{unavailable, holds_value}
use seatsync.Locks.Acquire.{has_key, DistinctKeys, Off, Free, acquire_script-All_or_none}
use seatsync.Locks.Release.{get-release_script}
use seatsync.Locks.Manager.{
  LockError, no_seats, seats_unavailable, invalid_seat_id, reply_result, targets,
  parse_seat_id_list, acquire, release, holds_for,
}

module _ (U : UuidCodec) where
  text_eq-lock_key :
      (e e' s s' : ℕ) → text_eq (lock_key U e s) (lock_key U e' s') ≡ (e == e' && s == s')
  text_eq-lock_key e e' s s' = elim (Bool-cases (text_eq (lock_key U e s) (lock_key U e' s'))) [
    | inl same ↦ ground (
      arith,
      lock_key-injective U e e' s s' (text_eq→eq (lock_key U e s) (lock_key U e' s') same),
    )
    | inr differ ↦ elim (Bool-cases (e == e' && s == s')) [
      | inl same ↦ ground (
        arith,
        ap (λ k. text_eq (lock_key U e s) (lock_key U k s)) {x = e} {y = e'} (ground arith),
        ap (λ k. text_eq (lock_key U e s) (lock_key U e' k)) {x = s} {y = s'} (ground arith),
        text_eq_refl (lock_key U e s),
      )
      | inr other ↦ ground arith
    ]
  ]

  -- Exactly the keys of the seats asked for are among the targets.
  has_key-targets :
      (e e' s : ℕ) (ss : List ℕ)
      → has_key (lock_key U e' s) (targets U e ss) ≡ (e' == e && contains ss s)
  unfolding has_key targets contains
  has_key-targets e e' s [] = ground arith
  has_key-targets e e' s (x ∷ ss) =
      ground (arith, text_eq-lock_key e' e s x, has_key-targets e e' s ss)

  targets-DistinctKeys : (e : ℕ) (ss : List ℕ) → Distinct ss → DistinctKeys (targets U e ss)
  unfolding targets
  targets-DistinctKeys e [] d = tt
  targets-DistinctKeys e (x ∷ ss) d =
      (ground (arith, has_key-targets e e x ss), targets-DistinctKeys e ss d.1)

  targets-Off : (e e' : ℕ) (ss : List ℕ) → All (Off (reserved_key U e')) (targets U e ss)
  unfolding targets
  targets-Off e e' [] = tt
  targets-Off e e' (x ∷ ss) =
      (text_eq_ne _ _ (lock_key-ne-reserved_key U e x e'), targets-Off e e' ss)

  module _ (R : Redis) where
    -- The value of a seat's lock at a time: who holds it, and by which token.
    abbrev pub holder : ℕ → ℕ → ℕ → R.Store → Option Text
    holder now event_id seat_id s = R.get now (lock_key U event_id seat_id) s

    -- Whether the seat is one of those named.
    abbrev pub names : ℕ → List ℕ → ℕ → ℕ → Bool
    names event_id seat_ids e seat = e == event_id && contains seat_ids seat

    targets-Free :
        (now e : ℕ) (ss : List ℕ) (s : R.Store) (seat : ℕ)
        → All (Free R now s) (targets U e ss)
        → contains ss seat ≡ true
        → holder now e seat s ≡ none
    unfolding targets contains
    targets-Free now e [] s seat f h = absurd (false≢true h)
    targets-Free now e (x ∷ ss) s seat f h = elim (Bool-cases (x == seat)) [
      | inl hit ↦
          let same : x ≡ seat = ground arith in subst (λ k. holder now e k s ≡ none) same f.0
      | inr miss ↦ targets-Free now e ss s seat f.1 (ground arith)
    ]

    -- A reply that names a seat is an error.
    reply_result-err :
        (expires_at : ℕ) (y : Text) (ys : List Text)
        → (x : LockError) × (reply_result U R expires_at (unavailable (y ∷ ys)) ≡ err x)
    unfolding reply_result parse_seat_id_list
    reply_result-err expires_at y ys = elim (Option-cases (U.parse y)) [
      | inl e ↦ (invalid_seat_id, rw (e, parse_seat_id_list) refl)
      | inr (id, e) ↦ elim (Result-cases (parse_seat_id_list U ys)) [
        | inl (ids, p) ↦ (seats_unavailable (id ∷ ids), ground arith)
        | inr (x, p) ↦ (x, ground arith)
      ]
    ]

    module _ (ttl clock now event_id user_id : ℕ) (lock_token : Text) (second : 1000 ≤ ttl) where
      abbrev value : Text
      value = lock_value U user_id lock_token

      abbrev outcome : List ℕ → R.Store → Result LockError ℕ × R.Store
      outcome seat_ids s = acquire U R ttl clock now event_id user_id lock_token seat_ids s

      -- Who holds what after the seats are locked.
      abbrev pub Locked : List ℕ → R.Store → R.Store → Type 0
      Locked seat_ids s s' =
          (e seat t : ℕ)
          → now ≤ t
          → holder t e seat s' ≡ (
              if names event_id seat_ids e seat
              then (if ltb t (now + 1000 * (ttl / 1000)) then some value else none)
              else holder t e seat s)

      -- Nobody holds any of the seats.
      abbrev pub Unheld : List ℕ → R.Store → Type 0
      Unheld seat_ids s =
          (seat : ℕ) → contains seat_ids seat ≡ true → holder now event_id seat s ≡ none

      acquire-cases :
          (seat_ids : List ℕ) (s : R.Store)
          → Distinct seat_ids
          → (((outcome seat_ids s).0 ≡ ok (clock + ttl))
              × Unheld seat_ids s
              × Locked seat_ids s (outcome seat_ids s).1)
            ⊎ ((x : LockError) × (outcome seat_ids s ≡ (err x, s)))
      unfolding acquire parse_seat_id_list
      acquire-cases [] s d = inr (no_seats, refl)
      acquire-cases (x ∷ xs) s d =
          elim (acquire_script-All_or_none R now (ttl / 1000) value (reserved_key U event_id)
            (clock + ttl) (omega arith) (targets U event_id (x ∷ xs)) s
            (targets-DistinctKeys event_id (x ∷ xs) d) (targets-Off event_id event_id (x ∷ xs))) [
              | inl (free, reply, after) ↦ inl (
                rw reply refl,
                λ seat h. targets-Free now event_id (x ∷ xs) s seat free h,
                λ e seat t later. ground (
                  arith,
                  after t (lock_key U e seat) later
                      (text_eq_ne _ _ (lock_key-ne-reserved_key U e seat event_id)),
                  has_key-targets event_id e seat (x ∷ xs),
                ),
              )
              | inr (y, ys, taken, same) ↦
                  let (e, failed) = reply_result-err (clock + ttl) y ys in
                  inr (e, rw same (rw failed refl))
            ]

      -- If the seats are distinct and the lifetime is at least a second, `Acquire` is all or nothing.
      -- On success nobody held any of the seats, the reported expiry is the caller's clock plus the
      -- lifetime, each seat named is held by exactly this user and token until the lifetime (in whole
      -- seconds) is over, and every other seat, of this event or another, is held as before; on any
      -- error the store is as it was.
      pub holder-acquire :
          (seat_ids : List ℕ) (s : R.Store)
          → Distinct seat_ids
          → ((exp : ℕ)
              → (outcome seat_ids s).0 ≡ ok exp
              → (exp ≡ clock + ttl) × Unheld seat_ids s × Locked seat_ids s (outcome seat_ids s).1)
            × ((x : LockError) → (outcome seat_ids s).0 ≡ err x → (outcome seat_ids s).1 ≡ s)
      holder-acquire seat_ids s d = elim (acquire-cases seat_ids s d) [
        | inl (reply, unheld, after) ↦
            (λ exp h. (ground arith, unheld, after), λ x h. absurd (ground arith))
        | inr (x, refused) ↦ (λ exp h. absurd (ground arith), λ x' h. ground arith)
      ]

    -- Nothing but the caller's own locks on the seats named is given up: after a release each seat
    -- has at any later time the lock that it would have had, or none if it was named and held by
    -- this user and token.
    pub holder-release :
        (now event_id user_id : ℕ) (lock_token : Text) (seat_ids : List ℕ) (s : R.Store)
        (e seat t : ℕ)
        → now ≤ t
        → holder t e seat (release U R now event_id user_id lock_token seat_ids s).1 ≡ (
            if names event_id seat_ids e seat
              && holds_value (lock_value U user_id lock_token) (holder now e seat s)
            then none
            else holder t e seat s)
    unfolding release contains
    holder-release now event_id user_id lock_token [] s e seat t later = ground arith
    holder-release now event_id user_id lock_token (x ∷ xs) s e seat t later = ground (
      arith,
      get-release_script R now (lock_value U user_id lock_token) (reserved_key U event_id)
          (targets U event_id (x ∷ xs)) 0 s t (lock_key U e seat) later
          (text_eq_ne _ _ (lock_key-ne-reserved_key U e seat event_id)),
      has_key-targets event_id e seat (x ∷ xs),
    )

    -- `HoldsFor` reports nothing missing exactly when each seat is held by this user and token.
    pub holds_for-nil_iff :
        (now event_id user_id : ℕ) (lock_token : Text) (seat_ids : List ℕ) (s : R.Store)
        → (holds_for U R now event_id user_id lock_token seat_ids s ≡ [])
          ↔ All (λ x. holder now event_id x s ≡ some (lock_value U user_id lock_token)) seat_ids
    unfolding holds_for
    holds_for-nil_iff now event_id user_id lock_token [] s = (λ h. tt, λ a. refl)
    holds_for-nil_iff now event_id user_id lock_token (x ∷ xs) s =
        let ih = holds_for-nil_iff now event_id user_id lock_token xs s in
        (
          λ h. (held_value (holder now event_id x s) (ground arith), ih.0 (ground arith)),
          λ a. rw a.0 (rw (text_eq_refl (lock_value U user_id lock_token)) (ih.1 a.1)),
        )
      where
        held_value :
            (o : Option Text)
            → holds_value (lock_value U user_id lock_token) o ≡ true
            → o ≡ some (lock_value U user_id lock_token)
        held_value none h = cc
        held_value (some w) h = ap some (text_eq→eq w _ h)

    -- Two callers cannot both get a seat: while the locks of a successful `Acquire` live, one by any
    -- caller that names one of its seats returns an error and changes nothing. The lifetime is at
    -- least a second, and each call names distinct seats.
    pub acquire_twice :
        (ttl clock now clock' now' event_id user_id user_id' : ℕ) (token token' : Text)
        (mine theirs : List ℕ) (seat : ℕ) (s : R.Store) {exp : ℕ}
        → 1000 ≤ ttl
        → Distinct mine
        → Distinct theirs
        → contains mine seat ≡ true
        → contains theirs seat ≡ true
        → (acquire U R ttl clock now event_id user_id token mine s).0 ≡ ok exp
        → now ≤ now'
        → now' < now + 1000 * (ttl / 1000)
        → let s' = (acquire U R ttl clock now event_id user_id token mine s).1 in
          (x : LockError) × (acquire U R ttl clock' now' event_id user_id' token' theirs s'
            ≡ (err x, s'))
    acquire_twice ttl clock now clock' now' event_id user_id user_id' token token' mine theirs seat
          s second dm dt im it won later alive =
        let s' = (acquire U R ttl clock now event_id user_id token mine s).1 in
        let held =
          ((holder-acquire ttl clock now event_id user_id token second mine s dm).0 _ won).2
            event_id seat now' later in
        elim (acquire-cases ttl clock' now' event_id user_id' token' second theirs s' dt) [
          | inl (reply, unheld, after) ↦ absurd (ground (arith, unheld seat it))
          | inr refused ↦ refused
        ]
