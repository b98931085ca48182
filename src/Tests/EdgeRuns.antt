-- ===== src/Tests/EdgeRuns.antt =====
-- The payment provider, the health endpoints and the origin check on some inputs.
use seatsync.Prelude.{◌≡◌, refl, false, true, none, some, [], ◌∷◌, codes, ok, err, text_eq}
use seatsync.Config.Settings.{nan}
use seatsync.Services.Provider.{
  Attempt, MockProvider, abandoned, charge, hex_encode, new_mock_provider, non_positive_amount,
  result_of, simulate_latency, succeeds,
}
use seatsync.Web.Security.{origin_allowed, ready}
use seatsync.Tests.ConfigRuns.{defaults}
use seatsync.Tests.WebRuns.{token_of_7, with_token}

-- A draw of 0 succeeds at any positive rate.
abbrev lucky : Attempt
lucky = record { outcome = 0; part = 0; random = some (171 ∷ 7 ∷ []); patience = none }

abbrev broken : MockProvider
broken = record (new_mock_provider defaults) { success_rate = nan }

charge-lucky :
    charge (new_mock_provider defaults) lucky 300 ≡ ok (result_of true (codes "mock_ab07"))
unfolding charge succeeds simulate_latency hex_encode text_eq
charge-lucky = refl

-- With a success rate of NaN every payment is declined.
charge-broken : charge broken lucky 300 ≡ ok (result_of false (codes "mock_ab07"))
unfolding charge succeeds simulate_latency hex_encode text_eq
charge-broken = refl

charge-nothing : charge broken lucky 0 ≡ err non_positive_amount
unfolding charge
charge-nothing = refl

charge-hung_up : charge broken (record lucky { patience = some 5 }) 300 ≡ err abandoned
unfolding charge simulate_latency
charge-hung_up = refl

ready-without_redis : (ready none (some (some (codes "refused"))) []).status ≡ 503
unfolding ready
ready-without_redis = refl

origin_allowed-empty : origin_allowed [] (with_token token_of_7) ≡ true
unfolding origin_allowed text_eq
origin_allowed-empty = refl
