-- ===== src/Config/Usable.antt =====
-- What a configuration that `Load` returns guarantees.
use seatsync.Prelude.{
  ◌<◌, ◌≡◌, ◌≢◌, ◌↔◌, ◌⊎◌, inl, inr, refl, sym, ◌∙◌, subst, ok-injective, Bool, true, false, not,
  ◌&&◌, ◌||◌, List, [], ◌∷◌, Text, Result, ok, err, ◌>>=◌, ◌>>◌, text_eq, text_eq→eq, text_eq_refl,
  is_empty, codes, if◌then◌else◌, ℤ, pos, negsuc, is_positive, Bool-cases, arith,
}
use seatsync.Config.Settings.{
  Float, below_zero, above_one, at_most_zero, is_negative, int_lt, Config, Environment, ConfigError,
}
use seatsync.Config.Load.{
  read_config, in_production, insecure_default_secret, Budget, budgets, known_mode, validate, load,
}
use seatsync.Config.Checks.{Rearranges, all_ok, checks, validate-checks}

abbrev pub IsPositive : ℤ → Type 0
IsPositive (pos n) = 0 < n
IsPositive (negsuc n) = ⊥

-- The settings by which the rest of the program runs. A float that is not a number passes as a rate.
pub record IsUsable (E : Environment) (c : Config) : Type 0 where
  pub has_secret : c.jwt_secret ≢ []
  pub real_secret : in_production E ≡ true → c.jwt_secret ≢ insecure_default_secret
  pub seats_positive : IsPositive c.max_seats_per_hold
  pub hold_positive : IsPositive c.hold_ttl
  pub sweep_positive : IsPositive c.expiry_sweep_interval
  pub access_positive : IsPositive c.jwt_access_ttl
  pub refresh_positive : IsPositive c.jwt_refresh_ttl
  pub mode_known :
      (c.payment_mode ≡ codes "random")
      ⊎ (c.payment_mode ≡ codes "always_success")
      ⊎ (c.payment_mode ≡ codes "always_fail")
  pub rate_in_range :
      (below_zero c.payment_success_rate ≡ false) × (above_one c.payment_success_rate ≡ false)
  pub latencies :
      (is_negative c.payment_min_latency ≡ false)
      × (is_negative c.payment_max_latency ≡ false)
      × (int_lt c.payment_max_latency c.payment_min_latency ≡ false)
  pub limits :
      c.rate_limit_enabled ≡ true
      → (IsPositive c.rate_limit_auth_burst × (at_most_zero c.rate_limit_auth_per_minute ≡ false))
        × (IsPositive c.rate_limit_read_burst × (at_most_zero c.rate_limit_read_per_minute ≡ false))
        × (IsPositive c.rate_limit_write_burst
            × (at_most_zero c.rate_limit_write_per_minute ≡ false))

is_positive_iff : (n : ℤ) → (is_positive n ≡ true) ↔ IsPositive n
is_positive_iff (pos n) = (λ e. ground arith, λ e. ground arith)
is_positive_iff (negsuc n) = (λ e. cc, λ e. absurd e)

is_empty_iff : (x : Text) → (is_empty x ≡ false) ↔ (x ≢ [])
is_empty_iff [] = (λ e. cc, λ n. absurd (n refl))
is_empty_iff (c ∷ x) = (λ e p. cc, λ n. refl)

known_mode_iff :
    (m : Text)
    → (known_mode m ≡ true)
      ↔ ((m ≡ codes "random") ⊎ (m ≡ codes "always_success") ⊎ (m ≡ codes "always_fail"))
known_mode_iff m = (λ h. to h, λ e. from e)
  where
    to :
        known_mode m ≡ true
        → (m ≡ codes "random") ⊎ (m ≡ codes "always_success") ⊎ (m ≡ codes "always_fail")
    to h = elim (Bool-cases (text_eq m (codes "random"))) [
      | inl e ↦ inl (text_eq→eq m (codes "random") e)
      | inr e ↦ elim (Bool-cases (text_eq m (codes "always_success"))) [
        | inl f ↦ inr (inl (text_eq→eq m (codes "always_success") f))
        | inr f ↦ inr (inr (text_eq→eq m (codes "always_fail") (ground arith)))
      ]
    ]

    from :
        (m ≡ codes "random") ⊎ (m ≡ codes "always_success") ⊎ (m ≡ codes "always_fail")
        → known_mode m ≡ true
    from (inl e) = rw e (rw (text_eq_refl (codes "random")) refl)
    from (inr (inl e)) = ground (arith, text_eq_refl (codes "always_success"))
    from (inr (inr e)) = ground (arith, text_eq_refl (codes "always_fail"))

swap_true : (a : Bool) → (a && true) ≡ a
swap_true true = refl
swap_true false = refl

and-true : (a b : Bool) → (a && b) ≡ true → (a ≡ true) × (b ≡ true)
and-true true b h = (refl, h)
and-true false b h = cc

not-true : (a : Bool) → not a ≡ true → a ≡ false
not-true true h = cc
not-true false h = refl

or-false : (a b : Bool) → (a || b) ≡ false → (a ≡ false) × (b ≡ false)
or-false true b h = cc
or-false false b h = (refl, h)

abbrev Limited : ℤ → Float → Type 0
Limited burst rate = IsPositive burst × (at_most_zero rate ≡ false)

positive-Limited :
    (burst : ℤ) (rate : Float)
    → (is_positive burst && not (at_most_zero rate)) ≡ true
    → Limited burst rate
positive-Limited burst rate h =
    let both = and-true (is_positive burst) (not (at_most_zero rate)) h in
    ((is_positive_iff burst).0 both.0, not-true (at_most_zero rate) both.1)

all_ok-Limited :
    (c : Config)
    → all_ok (budgets c) ≡ true
    → Limited c.rate_limit_auth_burst c.rate_limit_auth_per_minute
      × Limited c.rate_limit_read_burst c.rate_limit_read_per_minute
      × Limited c.rate_limit_write_burst c.rate_limit_write_per_minute
all_ok-Limited c h =
    let one = and-true _ _ h in
    let two = and-true _ _ one.1 in
    let three = and-true _ _ two.1 in
    (
      positive-Limited c.rate_limit_auth_burst c.rate_limit_auth_per_minute one.0,
      positive-Limited c.rate_limit_read_burst c.rate_limit_read_per_minute two.0,
      positive-Limited c.rate_limit_write_burst c.rate_limit_write_per_minute three.0,
    )

module _ (E : Environment) (c : Config) where
  checks-IsUsable : checks E c ≡ true → IsUsable E c
  checks-IsUsable h =
      let h₁ = and-true _ _ h in
      let h₂ = and-true _ _ h₁.1 in
      let h₃ = and-true _ _ h₂.1 in
      let h₄ = and-true _ _ h₃.1 in
      let h₅ = and-true _ _ h₄.1 in
      let h₆ = and-true _ _ h₅.1 in
      let h₇ = and-true _ _ h₆.1 in
      let h₈ = and-true _ _ h₇.1 in
      let h₉ = and-true _ _ h₈.1 in
      let h₁₀ = and-true _ _ h₉.1 in
      let ttls = and-true _ _ h₆.0 in
      let latencies = or-false _ _ (not-true _ h₉.0) in
      record {
        has_secret = (is_empty_iff c.jwt_secret).0 (not-true _ h₁.0);
        real_secret = λ p e. example c.jwt_secret (in_production E) (not-true _ h₂.0) p e;
        seats_positive = (is_positive_iff c.max_seats_per_hold).0 h₃.0;
        hold_positive = (is_positive_iff c.hold_ttl).0 h₄.0;
        sweep_positive = (is_positive_iff c.expiry_sweep_interval).0 h₅.0;
        access_positive = (is_positive_iff c.jwt_access_ttl).0 ttls.0;
        refresh_positive = (is_positive_iff c.jwt_refresh_ttl).0 ttls.1;
        mode_known = (known_mode_iff c.payment_mode).0 h₇.0;
        rate_in_range = or-false _ _ (not-true _ h₈.0);
        latencies = (latencies.0, latencies.1, not-true _ h₁₀.1);
        limits = λ on. all_ok-Limited c (when_on c.rate_limit_enabled on h₁₀.0);
      }
    where
      example :
          (secret : Text) (production : Bool)
          → (text_eq secret insecure_default_secret && production) ≡ false
          → production ≡ true
          → secret ≡ insecure_default_secret
          → ⊥
      example secret true h p e =
          let same : text_eq secret insecure_default_secret ≡ true =
            rw e (text_eq_refl insecure_default_secret) in
          cc (sym (swap_true (text_eq secret insecure_default_secret)) ∙ h, same)
      example secret false h p e = cc

      when_on :
          (on : Bool)
          → on ≡ true
          → (if on then all_ok (budgets c) else true) ≡ true
          → all_ok (budgets c) ≡ true
      when_on true e h = h
      when_on false e h = cc

pub load-ok :
    (arrange : List Budget → List Budget) (E : Environment) (c : Config)
    → load arrange E ≡ ok c
    → validate arrange E c ≡ ok tt
unfolding load
load-ok arrange E c h = go (read_config E) h
  where
    inner :
        (d : Config) (v : Result ConfigError (Unit {0}))
        → validate arrange E d ≡ v
        → (v >> ok d) ≡ ok c
        → validate arrange E c ≡ ok tt
    inner d (ok u) e p = subst (λ (x : Config). validate arrange E x ≡ ok tt) (ok-injective p) e
    inner d (err x) e p = cc

    go :
        (r : Result ConfigError Config)
        → (r >>= λ d. validate arrange E d >> ok d) ≡ ok c
        → validate arrange E c ≡ ok tt
    go (ok d) p = inner d (validate arrange E d) refl p
    go (err x) p = cc

pub load-IsUsable :
    (arrange : List Budget → List Budget) (E : Environment) (c : Config)
    → Rearranges arrange
    → load arrange E ≡ ok c
    → IsUsable E c
load-IsUsable arrange E c rearranges h =
    checks-IsUsable E c ((validate-checks arrange E rearranges c).0 (load-ok arrange E c h))
