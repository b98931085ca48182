-- ===== src/Prelude/Texts.antt =====
-- Texts as bytes: literals, and what the program uses of Go's package strings.
use Prim.Native.Char.{code}
use Prim.Native.String.{String}
use Prim.Native.Nat.{ℕ, zero, suc, ◌+◌, ◌/◌, ◌%◌}
use mathlib.Core.Path.{◌≡◌}
use mathlib.Core.Bool.{Bool, false, ◌&&◌, ◌||◌}
use mathlib.Core.Option.{Option, none, some}
use mathlib.Core.List.{[], ◌∷◌, ◌++◌, map, reverse}
use native.Mathlib.Omega.{arith}
use seatsync.Prelude.Tests.{Text, text_eq, ltb, ◌==◌, if◌then◌else◌}
use seatsync.Prelude.Lists.{contains}

-- The bytes of an ASCII literal.
abbrev pub codes : String → Text
codes String.[] = []
codes (String.◌∷◌ c s) = code c ∷ codes s

abbrev pub add_front : ℕ → Option (Text × Text) → Option (Text × Text)
add_front a none = none
add_front a (some (x, y)) = some (a ∷ x, y)

-- What stands before and after the first `c`.
unfoldable pub cut : ℕ → Text → Option (Text × Text)
cut c [] = none
cut c (a ∷ x) = let rest = add_front a (cut c x) in if a == c then some ([], x) else rest

pub cut-append : (c : ℕ) (x y : Text) → contains x c ≡ false → cut c (x ++ c ∷ y) ≡ some (x, y)
unfolding cut contains
cut-append c [] y h = ground arith
cut-append c (a ∷ x) y h = ground (arith, cut-append c x y)

abbrev pub is_space : ℕ → Bool
is_space c = c == 32 || (ltb 8 c && ltb c 14)

unfoldable pub trim_left : Text → Text
trim_left [] = []
trim_left (c ∷ x) = let rest = trim_left x in if is_space c then rest else c ∷ x

-- `strings.TrimSpace`, of ASCII space.
unfoldable pub trim_space : Text → Text
unfolding trim_left
trim_space x = reverse (trim_left (reverse (trim_left x)))

abbrev pub lower_byte : ℕ → ℕ
lower_byte c = if ltb 64 c && ltb c 91 then c + 32 else c

-- `strings.EqualFold`, over ASCII.
abbrev pub equal_fold : Text → Text → Bool
equal_fold x y = text_eq (map lower_byte x) (map lower_byte y)

-- `%d` of a natural number. The first argument bounds the digits; the number itself is enough.
unfoldable pub digits : ℕ → ℕ → Text
digits zero n = []
digits (suc k) n =
    let rest = digits k (n / 10) in (if ltb n 10 then [] else rest) ++ (48 + n % 10) ∷ []

unfoldable pub decimal : ℕ → Text
unfolding digits
decimal n = digits (suc n) n
