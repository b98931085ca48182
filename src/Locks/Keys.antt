-- ===== src/Locks/Keys.antt =====
-- The keys and values of backend/internal/locks/locks.go.
use seatsync.Prelude.{
  ℕ, ◌≡◌, refl, ap, ◌≢◌, Option, none, some, [], ◌∷◌, ◌++◌, Text, codes, cut, cut-append, arith,
}
use seatsync.Locks.Uuids.{UuidCodec}

abbrev colon : ℕ
colon = b':'

module _ (U : UuidCodec) where
  -- "<userId>:<lockToken>"
  unfoldable pub lock_value : ℕ → Text → Text
  lock_value user_id lock_token = U.to_text user_id ++ colon ∷ lock_token

  unfoldable pub parse_user : Option (Text × Text) → Option (ℕ × Text)
  parse_user none = none
  parse_user (some (user_part, token)) = elim (U.parse user_part) [
    | none ↦ none
    | some user_id ↦ some (user_id, token)
  ]

  unfoldable pub parse_lock_value : Text → Option (ℕ × Text)
  unfolding parse_user
  parse_lock_value value = parse_user (cut colon value)

  -- "lock:<eventId>:<seatId>"
  unfoldable pub lock_key : ℕ → ℕ → Text
  lock_key event_id seat_id = codes "lock:" ++ U.to_text event_id ++ colon ∷ U.to_text seat_id

  unfoldable pub lock_prefix : ℕ → Text
  lock_prefix event_id = codes "lock:" ++ U.to_text event_id ++ colon ∷ []

  -- "event:<eventId>:reserved"
  unfoldable pub reserved_key : ℕ → Text
  reserved_key event_id = codes "event:" ++ U.to_text event_id ++ codes ":reserved"

  unfoldable pub payment_slot_key : ℕ → Text
  payment_slot_key booking_id = codes "pay:" ++ U.to_text booking_id

  -- A stored lock value names its user and its token.
  pub parse_lock_value-lock_value :
      (user_id : ℕ) (lock_token : Text)
      → parse_lock_value (lock_value user_id lock_token) ≡ some (user_id, lock_token)
  unfolding parse_lock_value lock_value
  parse_lock_value-lock_value user_id lock_token =
      rw (cut-append colon (U.to_text user_id) lock_token (U.no_colon user_id), parse_user)
        (rw (U.parse-to_text user_id) refl)

  pub lock_value-injective :
      (u u' : ℕ) (t t' : Text) → lock_value u t ≡ lock_value u' t' → (u ≡ u') × (t ≡ t')
  lock_value-injective u u' t t' h = ground (
    arith,
    ap parse_lock_value h,
    parse_lock_value-lock_value u t,
    parse_lock_value-lock_value u' t',
  )

  abbrev drop_five : Text → Text
  drop_five (_ ∷ _ ∷ _ ∷ _ ∷ _ ∷ x) = x
  drop_five x = x

  -- Two seats, or one seat at two events, never share a lock key.
  pub lock_key-injective : (e e' s s' : ℕ) → lock_key e s ≡ lock_key e' s' → (e ≡ e') × (s ≡ s')
  unfolding lock_key lock_value
  lock_key-injective e e' s s' h =
      let (same, texts) = lock_value-injective e e' (U.to_text s) (U.to_text s') (ap drop_five h) in
      (same, ground (arith, U.parse-to_text s, U.parse-to_text s', ap U.parse texts))

  pub lock_key-ne-reserved_key : (e s e' : ℕ) → lock_key e s ≢ reserved_key e'
  unfolding lock_key reserved_key
  lock_key-ne-reserved_key e s e' h = ground arith
