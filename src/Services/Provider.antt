-- ===== src/Services/Provider.antt =====
-- `MockProvider` of backend/internal/payments/provider.go. What it draws at random and how long its caller
-- waits are arguments.
use seatsync.Prelude.{
  ℕ, suc, ◌+◌, ◌-◌, ◌*◌, ◌/◌, ◌%◌, Bool, true, false, ◌||◌, Option, none, some, List, [], ◌∷◌, ◌++◌,
  Text, Result, ok, err, codes, leb, ltb, ◌==◌, text_eq, ◌>>=◌, ◌>>◌, guard, not, if◌then◌else◌, ℤ,
  pos, negsuc,
}
use seatsync.Models.Price.{i64_half}
use seatsync.Config.Settings.{Config, Float, nan, infinite, negative_infinite, finite}
use seatsync.Services.World.{ChargeResult}

pub record MockProvider : Type 0 where
  pub mode : Text
  pub success_rate : Float
  pub min_latency : ℕ
  pub max_latency : ℕ

-- A configuration that loads has no negative latency.
abbrev pub latency : ℤ → ℕ
latency (pos n) = n
latency (negsuc n) = 0

abbrev pub new_mock_provider : Config → MockProvider
new_mock_provider c = record {
  mode = c.payment_mode;
  success_rate = c.payment_success_rate;
  min_latency = latency c.payment_min_latency;
  max_latency = latency c.payment_max_latency;
}

-- What one attempt draws: a fraction of 2^53 for the outcome, a part of the spread of the latency,
-- the bytes of the reference if the system gives any, and after how long the caller gives up.
pub record Attempt : Type 0 where
  pub outcome : ℕ
  pub part : ℕ
  pub random : Option (List ℕ)
  pub patience : Option ℕ

pub data ProviderError : Type 0 where
  non_positive_amount abandoned no_reference : ProviderError

abbrev pub two_to_53 : ℕ
two_to_53 = 9007199254740992

-- `mathrand.Float64() < rate`
abbrev pub below_rate : ℕ → Float → Bool
below_rate n nan = false
below_rate n infinite = true
below_rate n negative_infinite = false
below_rate n (finite (pos num) d) = ltb (n * suc d) (num * two_to_53)
below_rate n (finite (negsuc num) d) = false

unfoldable pub succeeds : MockProvider → ℕ → Bool
succeeds p outcome =
    if text_eq p.mode (codes "always_success")
    then true
    else if text_eq p.mode (codes "always_fail")
    then false
    else below_rate outcome p.success_rate

-- `mathrand.N(spread)` is below the spread.
abbrev pub delay : MockProvider → ℕ → ℕ
delay p part =
    if ltb p.min_latency p.max_latency
    then p.min_latency + part % (p.max_latency - p.min_latency)
    else p.min_latency

abbrev pub waited : Option ℕ → ℕ → Result ProviderError (Unit {0})
waited none d = ok tt
waited (some patience) d = if d == 0 || leb d patience then ok tt else err abandoned

unfoldable pub simulate_latency : MockProvider → Attempt → Result ProviderError (Unit {0})
simulate_latency p a = if p.max_latency == 0 then ok tt else waited a.patience (delay p a.part)

abbrev pub hex_digit : ℕ → ℕ
hex_digit n = if ltb n 10 then 48 + n else 87 + n

unfoldable pub hex_encode : List ℕ → Text
hex_encode [] = []
hex_encode (b ∷ bs) = hex_digit (b / 16) ∷ hex_digit (b % 16) ∷ hex_encode bs

abbrev pub new_reference : Option (List ℕ) → Result ProviderError Text
new_reference none = err no_reference
new_reference (some buf) = ok (codes "mock_" ++ hex_encode buf)

abbrev pub result_of : Bool → Text → ChargeResult
result_of true reference = record { succeeded = true; reference = reference; decline_reason = [] }
result_of false reference = record {
  succeeded = false;
  reference = reference;
  decline_reason = codes "The card issuer declined the payment.";
}

-- The amount is the pattern of an int64.
unfoldable pub charge : MockProvider → Attempt → ℕ → Result ProviderError ChargeResult
charge p a amount = do
  guard (not (amount == 0 || leb i64_half amount)) non_positive_amount
  simulate_latency p a
  reference ← new_reference a.random
  ok (result_of (succeeds p a.outcome) reference)
