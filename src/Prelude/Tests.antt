-- ===== src/Prelude/Tests.antt =====
-- Boolean tests on the native numbers and on texts, and the conditional.
use Prim.Native.Nat.{ℕ, compare, Ordering}
use mathlib.Core.Path.{◌≡◌, refl}
use mathlib.Core.Logic.{◌≢◌, ◌↔◌, ◌⊎◌, inl, inr}
use mathlib.Core.Bool.{Bool, true, false, ◌&&◌}
use mathlib.Core.Option.{Option, none, some}
use mathlib.Core.List.{List, [], ◌∷◌}
use native.Mathlib.Omega.{arith}

abbrev pub ltb : ℕ → ℕ → Bool
ltb a b = elim (compare a b) [ Ordering.lt ↦ true | _ ↦ false ]

abbrev pub leb : ℕ → ℕ → Bool
leb a b = elim (compare a b) [ Ordering.gt ↦ false | _ ↦ true ]

infix 50 ◌==◌
abbrev pub ◌==◌ : ℕ → ℕ → Bool
a == b = elim (compare a b) [ Ordering.eq ↦ true | _ ↦ false ]

infix 1 if◌then◌else◌
abbrev pub if◌then◌else◌ {ℓ} : {A : Type ℓ} → Bool → A → A → A
if true then x else y = x
if false then x else y = y

pub ==_iff : (a b : ℕ) → ((a == b) ≡ true) ↔ (a ≡ b)
==_iff a b = ground arith

pub ==_refl : (a : ℕ) → (a == a) ≡ true
==_refl a = ground arith

-- A text is the list of its bytes.
abbrev pub Text : Type 0
Text = List ℕ

unfoldable pub text_eq : Text → Text → Bool
text_eq [] [] = true
text_eq (a ∷ x) (b ∷ y) = a == b && text_eq x y
text_eq _ _ = false

pub text_eq→eq : (x y : Text) → text_eq x y ≡ true → x ≡ y
unfolding text_eq
text_eq→eq [] [] h = refl
text_eq→eq [] (b ∷ y) h = ground arith
text_eq→eq (a ∷ x) [] h = ground arith
text_eq→eq (a ∷ x) (b ∷ y) h = ground (arith, text_eq→eq x y)

pub text_eq_refl : (x : Text) → text_eq x x ≡ true
unfolding text_eq
text_eq_refl [] = refl
text_eq_refl (a ∷ x) = ground (arith, text_eq_refl x)

pub text_eq_comm : (x y : Text) → text_eq x y ≡ text_eq y x
unfolding text_eq
text_eq_comm [] [] = refl
text_eq_comm [] (b ∷ y) = refl
text_eq_comm (a ∷ x) [] = refl
text_eq_comm (a ∷ x) (b ∷ y) = ground (arith, text_eq_comm x y)

pub Bool-cases : (b : Bool) → (b ≡ true) ⊎ (b ≡ false)
Bool-cases true = inl refl
Bool-cases false = inr refl

pub text_eq_ne : (x y : Text) → x ≢ y → text_eq x y ≡ false
text_eq_ne x y h = elim (Bool-cases (text_eq x y)) [
  | inl same ↦ absurd (h (text_eq→eq x y same))
  | inr differ ↦ differ
]

pub Option-cases {ℓ} : {A : Type ℓ} (o : Option A) → (o ≡ none) ⊎ ((a : A) × (o ≡ some a))
Option-cases none = inl refl
Option-cases (some a) = inr (a, refl)
