-- ===== src/Config/Checks.antt =====
-- `validate` as one test of a configuration.
use seatsync.Prelude.{
  ◌≡◌, ◌↔◌, refl, ◌∙◌, Bool, true, false, not, ◌&&◌, ◌||◌, List, [], ◌∷◌, Result, ok, err, guard,
  ◌>>◌, text_eq, is_empty, if◌then◌else◌, is_positive, arith,
}
use mathlib.Core.List.{Permᴰ}
use seatsync.Config.Settings.{
  below_zero, above_one, is_negative, int_lt, Config, Environment, ConfigError, empty_secret,
  example_secret, seats_per_hold, hold_ttl_not_positive, sweep_not_positive, token_ttl_not_positive,
  unknown_payment_mode, success_rate_out_of_range, negative_latency, latency_order,
}
use seatsync.Config.Load.{
  in_production, insecure_default_secret, Budget, budgets, budget_ok, check_budgets, known_mode,
  validate,
}

abbrev pub all_ok : List Budget → Bool
all_ok [] = true
all_ok (b ∷ bs) = budget_ok b && all_ok bs

check_budgets-all_ok : (bs : List Budget) → (check_budgets bs ≡ ok tt) ↔ (all_ok bs ≡ true)
unfolding check_budgets
check_budgets-all_ok [] = (λ e. refl, λ e. refl)
check_budgets-all_ok (b ∷ bs) =
    let ih = check_budgets-all_ok bs in (λ e. ground (arith, ih.0), λ e. ground (arith, ih.1))

swap_and : (a b c : Bool) → (a && (b && c)) ≡ (b && (a && c))
swap_and a b c = ground arith

all_ok-Permᴰ : {xs ys : List Budget} → Permᴰ xs ys → all_ok xs ≡ all_ok ys
all_ok-Permᴰ Permᴰ.nil = refl
all_ok-Permᴰ (Permᴰ.cons e p) = rw (e, all_ok-Permᴰ p) refl
all_ok-Permᴰ (Permᴰ.swap {l = l} e f) = rw (e, f) (swap_and _ _ (all_ok l))
all_ok-Permᴰ (Permᴰ.trans p q) = all_ok-Permᴰ p ∙ all_ok-Permᴰ q

-- Go ranges over a map in any order, over each entry once.
abbrev pub Rearranges : (List Budget → List Budget) → Type 0
Rearranges arrange = (bs : List Budget) → Permᴰ (arrange bs) bs

-- The checks, as one test.
abbrev pub checks : Environment → Config → Bool
checks E c =
    not (is_empty c.jwt_secret)
    && (not (text_eq c.jwt_secret insecure_default_secret && in_production E)
        && (is_positive c.max_seats_per_hold
            && (is_positive c.hold_ttl
                && (is_positive c.expiry_sweep_interval
                    && ((is_positive c.jwt_access_ttl && is_positive c.jwt_refresh_ttl)
                        && (known_mode c.payment_mode
                            && (not (
                                  below_zero c.payment_success_rate
                                  || above_one c.payment_success_rate)
                                && (not (
                                      is_negative c.payment_min_latency
                                      || is_negative c.payment_max_latency)
                                    && ((if c.rate_limit_enabled then all_ok (budgets c) else true)
                                        && not (
                                            int_lt c.payment_max_latency
                                              c.payment_min_latency))))))))))

guard-and :
    {E : Type 0} (b rest : Bool) (e : E) (r : Result E (Unit {0}))
    → ((r ≡ ok tt) ↔ (rest ≡ true))
    → ((guard b e >> r) ≡ ok tt) ↔ ((b && rest) ≡ true)
guard-and true rest e r h = h
guard-and false rest e r h = (λ x. cc, λ x. cc)

module _ (arrange : List Budget → List Budget) (E : Environment)
    (rearranges : Rearranges arrange) where
  budgets-ok :
      (c : Config)
      → ((if c.rate_limit_enabled then check_budgets (arrange (budgets c)) else ok tt) ≡ ok tt)
        ↔ ((if c.rate_limit_enabled then all_ok (budgets c) else true) ≡ true)
  budgets-ok c = go c.rate_limit_enabled
    where
      go :
          (b : Bool)
          → ((if b then check_budgets (arrange (budgets c)) else ok tt) ≡ ok tt)
            ↔ ((if b then all_ok (budgets c) else true) ≡ true)
      go true =
          rw (← all_ok-Permᴰ (rearranges (budgets c))) (check_budgets-all_ok (arrange (budgets c)))
      go false = (λ e. refl, λ e. refl)

  pub validate-checks : (c : Config) → (validate arrange E c ≡ ok tt) ↔ (checks E c ≡ true)
  unfolding validate
  validate-checks c = guard-and (not (is_empty c.jwt_secret)) _ empty_secret _ (
      guard-and (not (text_eq c.jwt_secret insecure_default_secret && in_production E)) _
        example_secret _
        (guard-and (is_positive c.max_seats_per_hold) _ seats_per_hold _ (
          guard-and (is_positive c.hold_ttl) _ hold_ttl_not_positive _ (
            guard-and (is_positive c.expiry_sweep_interval) _ sweep_not_positive _ (
              guard-and (is_positive c.jwt_access_ttl && is_positive c.jwt_refresh_ttl) _
                token_ttl_not_positive _
                (guard-and (known_mode c.payment_mode) _ unknown_payment_mode _ (
                  guard-and
                    (not (below_zero c.payment_success_rate || above_one c.payment_success_rate)) _
                    success_rate_out_of_range _
                    (guard-and
                      (not (is_negative c.payment_min_latency || is_negative c.payment_max_latency))
                      _ negative_latency _
                      (last_two
                        (if c.rate_limit_enabled
                          then check_budgets (arrange (budgets c))
                          else ok tt)
                        (if c.rate_limit_enabled then all_ok (budgets c) else true)
                        (not (int_lt c.payment_max_latency c.payment_min_latency))
                        (budgets-ok c))))))))))
    where
      last_two :
          (r : Result ConfigError (Unit {0})) (b last : Bool)
          → ((r ≡ ok tt) ↔ (b ≡ true))
          → ((r >> guard last latency_order) ≡ ok tt) ↔ ((b && last) ≡ true)
      last_two (ok u) b last h = rw (h.0 refl) (end last)
        where
          end : (last : Bool) → (guard last latency_order ≡ ok tt) ↔ (last ≡ true)
          end true = (λ e. refl, λ e. refl)
          end false = (λ e. cc, λ e. cc)
      last_two (err x) b last h =
          (λ e. cc, λ e. let t : b ≡ true = ground arith in let both = h.1 t in cc)
