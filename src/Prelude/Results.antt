-- ===== src/Prelude/Results.antt =====
-- Results of fallible code, and their chaining.
use mathlib.Core.Path.{◌≡◌, refl}
use mathlib.Core.Logic.{◌⊎◌, inl, inr}
use mathlib.Core.Bool.{Bool, true, false}

-- The type of the errors comes first: the transactions have several.
pub data Result {ℓ κ} (E : Type ℓ) (A : Type κ) : Type (ℓ ⊔ κ) where
  err : E → Result E A
  ok : A → Result E A

pub Result-cases {ℓ κ} :
    {E : Type ℓ} {A : Type κ} (r : Result E A) → ((a : A) × (r ≡ ok a)) ⊎ ((e : E) × (r ≡ err e))
Result-cases (err e) = inr (e, refl)
Result-cases (ok a) = inl (a, refl)

-- A condition that a statement checks, with the error of its violation.
abbrev pub guard {κ} : {E : Type κ} → Bool → E → Result E (Unit {0})
guard false violated = err violated
guard true violated = ok tt

infixl 5 ◌>>=◌ ◌>>◌
abbrev pub ◌>>=◌ {ε ℓ κ} :
    {E : Type ε} {A : Type ℓ} {B : Type κ} → Result E A → (A → Result E B) → Result E B
err failure >>= next = err failure
ok answer >>= next = next answer

abbrev pub ◌>>◌ {ε κ} : {E : Type ε} {B : Type κ} → Result E (Unit {0}) → Result E B → Result E B
first >> rest = first >>= λ done. rest

pub ok-injective {ℓ κ} :
    {E : Type ℓ} {A : Type κ} {a b : A} → ◌≡◌ {A = Result E A} (ok a) (ok b) → a ≡ b
ok-injective h = cc
