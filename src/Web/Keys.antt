-- ===== src/Web/Keys.antt =====
-- Which requests share an allowance.
use seatsync.Prelude.{
  ℕ, ◌≡◌, refl, sym, ap, ◌∙◌, Bool, false, Option, none, some, ◌++◌, Text, codes, cut, contains,
  cut-append, arith,
}
use seatsync.Locks.Uuids.{UuidCodec}
use seatsync.Web.Http.{Request}
use seatsync.Web.Identity.{client_ip, caller_key, scoped_key}

some-injective {ℓ} : {A : Type ℓ} {x y : A} → ◌≡◌ {A = Option A} (some x) (some y) → x ≡ y
some-injective e = cc

scoped_key-injective :
    (s t x y : Text)
    → scoped_key s x ≡ scoped_key t y
    → contains s b':' ≡ false
    → contains t b':' ≡ false
    → (s ≡ t) × (x ≡ y)
scoped_key-injective s t x y e p q =
    let l : cut b':' (scoped_key s x) ≡ some (s, x) = cut-append b':' s x p in
    let r : cut b':' (scoped_key t y) ≡ some (t, y) = cut-append b':' t y q in
    let both = some-injective (sym l ∙ ap (cut b':') e ∙ r) in
    (ap (λ (z : Text × Text). z.0) both, ap (λ (z : Text × Text). z.1) both)

to_text-injective : (U : UuidCodec) (u v : ℕ) → U.to_text u ≡ U.to_text v → u ≡ v
to_text-injective U u v e =
    some-injective (sym (U.parse-to_text u) ∙ ap U.parse e ∙ U.parse-to_text v)

module _ (U : UuidCodec) (trust_proxy : Bool) (split : Text → Option Text) where
  abbrev key_of : Option ℕ → Text → Text
  key_of none ip = codes "ip:" ++ ip
  key_of (some u) ip = codes "user:" ++ U.to_text u

  caller_key-eq :
      (r : Request)
      → caller_key U trust_proxy split r ≡ key_of r.user_id (client_ip trust_proxy split r)
  unfolding caller_key
  caller_key-eq r = ground arith

  key_of-injective :
      (a b : Option ℕ) (x y : Text) → key_of a x ≡ key_of b y → (a ≡ b) × (a ≡ none → x ≡ y)
  key_of-injective none none x y e = (refl, λ h. cc)
  key_of-injective none (some v) x y e = absurd (ground arith)
  key_of-injective (some u) none x y e = absurd (ground arith)
  key_of-injective (some u) (some v) x y e =
      let same = to_text-injective U u v cc in
      (ap (λ (n : ℕ). some n) same, λ h. absurd (ground arith))

  -- Two requests share a bucket only if they are of one class of endpoints and are both anonymous
  -- from one address or both of one user: no colon stands in a class's name.
  pub caller_key-injective :
      (scope scope' : Text) (r r' : Request)
      → scoped_key scope (caller_key U trust_proxy split r)
        ≡ scoped_key scope' (caller_key U trust_proxy split r')
      → contains scope b':' ≡ false
      → contains scope' b':' ≡ false
      → (scope ≡ scope')
        × (r.user_id ≡ r'.user_id)
        × (r.user_id ≡ none → client_ip trust_proxy split r ≡ client_ip trust_proxy split r')
  caller_key-injective scope scope' r r' e p q =
      let (same, keys) = scoped_key-injective scope scope' _ _ e p q in
      let (users, addresses) =
        key_of-injective r.user_id r'.user_id _ _
          (sym (caller_key-eq r) ∙ keys ∙ caller_key-eq r') in
      (same, users, addresses)
