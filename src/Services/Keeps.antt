-- ===== src/Services/Keeps.antt =====
-- How to prove that a service keeps a property of the shared state, whatever the schedule.
use seatsync.Prelude.{ℕ, Bool, true, false, Result, ok, err}
use seatsync.Httpx.{ApiError}
use seatsync.Services.World.{
  SeatLocker, Shared, Fate, served, lost, answer_lost, World, Schedule, Service, Effect, ◌>>=◌,
  continue, lift, ensure, quietly, deferring, fated, ask, attempt, call, clock_reading, new_token,
}

module _ (L : SeatLocker) (P : Shared L → Type 0) where
  -- The service ends in a good state if it begins in one.
  pub record Keeps {ℓ} {A : Type ℓ} (m : Service (World L) A) : Type 0 where
    pub keeps : (w : World L) → P w.shared → P (m w).1.shared

  pub bind-Keeps {ℓ κ} :
      {A : Type ℓ} {B : Type κ} (m : Service (World L) A) (f : A → Service (World L) B)
      → Keeps m
      → ((a : A) → Keeps (f a))
      → Keeps (m >>= f)
  unfolding ◌>>=◌
  bind-Keeps {A = A} m f km kf = record { keeps = λ w p. go (m w) (km.keeps w p) }
    where
      go : (r : Result ApiError A × World L) → P r.1.shared → P (continue f r).1.shared
      go (ok a, w') q = (kf a).keeps w' q
      go (err e, w') q = q

  pub lift-Keeps {ℓ} : {A : Type ℓ} (r : Result ApiError A) → Keeps (lift r)
  unfolding lift
  lift-Keeps r = record { keeps = λ w p. p }

  pub ensure-Keeps : (b : Bool) (e : ApiError) → Keeps (ensure b e)
  unfolding ensure
  ensure-Keeps true e = record { keeps = λ w p. p }
  ensure-Keeps false e = record { keeps = λ w p. p }

  pub quietly-Keeps {ℓ} : {A : Type ℓ} (m : Service (World L) A) → Keeps m → Keeps (quietly m)
  unfolding quietly
  quietly-Keeps m k = record { keeps = k.keeps }

  pub deferring-Keeps {ℓ κ} :
      {A : Type ℓ} {B : Type κ} (cleanup : Service (World L) B) (body : Service (World L) A)
      → Keeps cleanup
      → Keeps body
      → Keeps (deferring cleanup body)
  unfolding deferring
  deferring-Keeps cleanup body kc kb = record { keeps = λ w p. kc.keeps (body w).1 (kb.keeps w p) }

  pub clock_reading-Keeps : (env : Schedule L) → Keeps (clock_reading L env)
  unfolding clock_reading
  clock_reading-Keeps env = record { keeps = λ w p. p }

  pub new_token-Keeps : (env : Schedule L) → Keeps (new_token L env)
  unfolding new_token
  new_token-Keeps env = record { keeps = λ w p. p }

  -- The others keep the property too.
  abbrev pub OthersKeep : Schedule L → Type 0
  OthersKeep env = (n : ℕ) (s : Shared L) → P s → P ((env n).before s)

  abbrev pub EffectKeeps {ℓ} : {A : Type ℓ} → Schedule L → Effect L A → Type 0
  EffectKeeps env effect = (n : ℕ) (s : Shared L) → P s → P (effect (env n) s).1

  module _ (env : Schedule L) (others : OthersKeep env) where
    pub fated-Keeps {ℓ} :
        {A : Type ℓ} (f : Fate) (r : A × Shared L) (s : Shared L)
        → P s
        → P r.1
        → P (fated L f r s).1
    fated-Keeps served (a, s') s p q = q
    fated-Keeps lost (a, s') s p q = p
    fated-Keeps answer_lost (a, s') s p q = q

    pub call-Keeps {ℓ} :
        {A : Type ℓ} (effect : Effect L A)
        → EffectKeeps env effect
        → (w : World L) → P w.shared
        → P (call L env effect w).1.shared
    unfolding call
    call-Keeps effect k w p =
        let m = env w.calls in
        let q = others w.calls w.shared p in
        fated-Keeps m.fate (effect m (m.before w.shared)) (m.before w.shared) q
          (k w.calls (m.before w.shared) q)

    pub ask-Keeps {ℓ} :
        {A : Type ℓ} (effect : Effect L A) → EffectKeeps env effect → Keeps (ask L env effect)
    unfolding ask
    ask-Keeps effect k = record { keeps = call-Keeps effect k }

    pub attempt-Keeps {ℓ} :
        {A : Type ℓ} (effect : Effect L A) → EffectKeeps env effect → Keeps (attempt L env effect)
    unfolding attempt
    attempt-Keeps effect k = record { keeps = call-Keeps effect k }
