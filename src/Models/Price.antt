-- ===== src/Models/Price.antt =====
-- `Seat.Price` of backend/internal/models/models.go, on 64-bit patterns.
use seatsync.Prelude.{
  ℕ, suc, leb, ◌+◌, ◌-◌, ◌*◌, ◌/◌, ◌%◌, ◌≤◌, ◌<◌, ◌≡◌, arith, ltb, if◌then◌else◌,
}

abbrev pub i64_mod : ℕ
i64_mod = 18446744073709551616

abbrev pub i64_half : ℕ
i64_half = 9223372036854775808

-- Go's `/` on `int64`: it rounds towards zero.
unfoldable pub div_i64 : ℕ → ℕ → ℕ
div_i64 x d = if ltb x i64_half then x / d else (i64_mod - (i64_mod - x) / d) % i64_mod

unfoldable pub price : ℕ → ℕ → ℕ
unfolding div_i64
price multiplier_bp base_price = div_i64 ((base_price * multiplier_bp % i64_mod + 50) % i64_mod) 100

rounds :
    (x : ℕ)
    → x + 50 < i64_half
    → (100 * div_i64 ((x % i64_mod + 50) % i64_mod) 100 ≤ x + 50)
      × (x < 100 * div_i64 ((x % i64_mod + 50) % i64_mod) 100 + 50)
unfolding div_i64
rounds x fits =
    let plain : (x % i64_mod + 50) % i64_mod ≡ x + 50 = omega arith in rw plain (ground arith)

listed :
    (x : ℕ)
    → x + 50 < i64_half
    → (x + 50 + 50) / 100 ≡ (
        if leb 50 (x % 100)
        then div_i64 ((x % i64_mod + 50) % i64_mod) 100
        else suc (div_i64 ((x % i64_mod + 50) % i64_mod) 100))
unfolding div_i64
listed x fits =
    let plain : (x % i64_mod + 50) % i64_mod ≡ x + 50 = omega arith in rw plain (ground arith)

-- The price is the product of the base price and the multiplier in hundredths, rounded half up to a whole unit:
-- a hundred prices are within fifty of the product (the upper end excluded), as long as the product and
-- fifty stay below 2^63.
pub price-rounds :
    (multiplier_bp base_price : ℕ)
    → base_price * multiplier_bp + 50 < i64_half
    → (100 * price multiplier_bp base_price ≤ base_price * multiplier_bp + 50)
      × (base_price * multiplier_bp < 100 * price multiplier_bp base_price + 50)
unfolding price
price-rounds multiplier_bp base_price fits = rounds (base_price * multiplier_bp) fits

-- The seat price as the booking queries compute it: `(base_price * price_multiplier + 0.5)::bigint`
-- on NUMERIC, where the cast rounds half up. In hundredths, and within the range of BIGINT.
unfoldable pub listed_price : ℕ → ℕ → ℕ
listed_price multiplier_bp base_price = (base_price * multiplier_bp + 50 + 50) / 100

-- The queries round twice: the price that they list is the charged one if the product's hundredths
-- are 50 or more, and otherwise one unit more than the charged one, as long as the product and fifty
-- stay below 2^63.
pub listed_price-price :
    (multiplier_bp base_price : ℕ)
    → base_price * multiplier_bp + 50 < i64_half
    → listed_price multiplier_bp base_price ≡ (
        if leb 50 (base_price * multiplier_bp % 100)
        then price multiplier_bp base_price
        else suc (price multiplier_bp base_price))
unfolding listed_price price
listed_price-price multiplier_bp base_price fits = listed (base_price * multiplier_bp) fits
