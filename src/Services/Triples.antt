-- ===== src/Services/Triples.antt =====
-- How to prove what holds of the shared state when a service answers without an error.
use seatsync.Prelude.{
  ℕ, suc, ◌≡◌, refl, Bool, true, false, Option, none, some, Result, ok, err, if◌then◌else◌,
}
use seatsync.Httpx.{ApiError}
use seatsync.Services.World.{
  SeatLocker, Shared, Fate, served, lost, answer_lost, World, Schedule, Service, Effect, ◌>>=◌,
  continue, lift, ensure, deferring, fated, ask, attempt, call, then_cleanup, answered, settled,
  shared_after,
}
use seatsync.Services.Keeps.{Keeps, OthersKeep}

module _ (L : SeatLocker) where
  abbrev pub OnOk {ℓ} :
      {A : Type ℓ} → (A → Shared L → Type 0) → Result ApiError A × World L → Type 0
  OnOk Q (ok a, w) = Q a w.shared
  OnOk Q (err e, w) = Unit

  -- From a state with P, an answer comes with a state with Q of the answer.
  pub record Triple {ℓ} {A : Type ℓ} (P : Shared L → Type 0) (m : Service (World L) A)
      (Q : A → Shared L → Type 0) : Type 0 where
    pub after : (w : World L) → P w.shared → OnOk Q (m w)

  pub bind-Triple {ℓ κ} :
      {A : Type ℓ} {B : Type κ} (P : Shared L → Type 0) (m : Service (World L) A)
      (f : A → Service (World L) B) (R : A → Shared L → Type 0) (Q : B → Shared L → Type 0)
      → Triple P m R
      → ((a : A) → Triple (R a) (f a) Q)
      → Triple P (m >>= f) Q
  unfolding ◌>>=◌
  bind-Triple {A = A} P m f R Q tm tf = record { after = λ w p. go (m w) (tm.after w p) }
    where
      go : (r : Result ApiError A × World L) → OnOk R r → OnOk Q (continue f r)
      go (ok a, w') q = (tf a).after w' q
      go (err e, w') q = tt

  pub lift-Triple :
      {A : Type 0} (P : Shared L → Type 0) (r : Result ApiError A)
      → Triple P (lift r) (λ a s. (r ≡ ok a) × P s)
  unfolding lift
  lift-Triple {A = A} P r = record { after = λ w p. go r w p }
    where
      go :
          (r : Result ApiError A) (w : World L) → P w.shared → OnOk (λ a s. (r ≡ ok a) × P s) (r, w)
      go (ok a) w p = (refl, p)
      go (err e) w p = tt

  pub ensure-Triple :
      (P : Shared L → Type 0) (b : Bool) (e : ApiError) → Triple P (ensure b e) (λ u s. P s)
  unfolding ensure
  ensure-Triple P true e = record { after = λ w p. p }
  ensure-Triple P false e = record { after = λ w p. tt }

  -- A part that is only known to keep P.
  pub keeps-Triple {ℓ} :
      {A : Type ℓ} (P : Shared L → Type 0) (m : Service (World L) A)
      → Keeps L P m
      → Triple P m (λ a s. P s)
  keeps-Triple {A = A} P m k = record { after = λ w p. go (m w) (k.keeps w p) }
    where
      go : (r : Result ApiError A × World L) → P r.1.shared → OnOk (λ a s. P s) r
      go (ok a, w') q = q
      go (err e, w') q = tt

  pub answer-Triple {ℓ} :
      {A : Type ℓ} (P : Shared L → Type 0) (a : A) (Q : A → Shared L → Type 0)
      → ((s : Shared L) → P s → Q a s)
      → Triple P (lift (ok a)) Q
  unfolding lift
  answer-Triple P a Q h = record { after = λ w p. h w.shared p }

  -- A choice between two services by a test.
  pub choose-Triple {ℓ} :
      {A : Type ℓ} (P : Shared L → Type 0) (b : Bool) (m n : Service (World L) A)
      (Q : A → Shared L → Type 0)
      → (b ≡ true → Triple P m Q)
      → (b ≡ false → Triple P n Q)
      → Triple P (λ w. if b then m w else n w) Q
  choose-Triple P true m n Q tm tn = record { after = (tm refl).after }
  choose-Triple P false m n Q tm tn = record { after = (tn refl).after }

  -- A part that never answers without an error.
  pub err-Triple {ℓ} :
      {A : Type ℓ} (P : Shared L → Type 0) (e : ApiError) (Q : A → Shared L → Type 0)
      → Triple P (lift (err e)) Q
  unfolding lift
  err-Triple P e Q = record { after = λ w p. tt }

  pub deferring-Triple {ℓ κ} :
      {A : Type ℓ} {B : Type κ} (P : Shared L → Type 0) (cleanup : Service (World L) B)
      (body : Service (World L) A) (Q : A → Shared L → Type 0)
      → ((a : A) → Keeps L (Q a) cleanup)
      → Triple P body Q
      → Triple P (deferring cleanup body) Q
  unfolding deferring
  deferring-Triple {A = A} P cleanup body Q kc tb = record {
    after = λ w p. go (body w) (tb.after w p);
  }
    where
      go : (r : Result ApiError A × World L) → OnOk Q r → OnOk Q (then_cleanup cleanup r)
      go (ok a, w') q = (kc a).keeps w' q
      go (err e, w') q = tt

  module _ (env : Schedule L) where
    abbrev pub EffectGives {ℓ} :
        {A : Type ℓ} → (Shared L → Type 0) → Effect L A → (A → Shared L → Type 0) → Type 0
    EffectGives P effect Q =
        (n : ℕ) (s : Shared L) → P s → Q (effect (env n) s).0 (effect (env n) s).1

    fated-OnOk {ℓ} :
        {A : Type ℓ} (f : Fate) (r : A × Shared L) (s : Shared L) (n : ℕ)
        (Q : A → Shared L → Type 0)
        → Q r.0 r.1
        → OnOk Q (answered L (shared_after L n (fated L f r s)))
    fated-OnOk served (a, s') s n Q q = q
    fated-OnOk lost (a, s') s n Q q = tt
    fated-OnOk answer_lost (a, s') s n Q q = tt

    pub ask-Triple {ℓ} :
        {A : Type ℓ} (P : Shared L → Type 0) (effect : Effect L A) (Q : A → Shared L → Type 0)
        → OthersKeep L P env
        → EffectGives P effect Q
        → Triple P (ask L env effect) Q
    unfolding ask call
    ask-Triple P effect Q others gives = record {
      after = λ w p.
          let m = env w.calls in
          let s = m.before w.shared in
          fated-OnOk m.fate (effect m s) s (suc w.calls) Q
            (gives w.calls s (others w.calls w.shared p));
    }

    -- What is known of an answer that the caller got.
    abbrev pub IfHeard {ℓ} : {A : Type ℓ} → (A → Shared L → Type 0) → Option A → Shared L → Type 0
    IfHeard Q none s = Unit
    IfHeard Q (some a) s = Q a s

    fated-Heard {ℓ} :
        {A : Type ℓ} (f : Fate) (r : A × Shared L) (s : Shared L) (n : ℕ)
        (Q : A → Shared L → Type 0)
        → Q r.0 r.1
        → OnOk (IfHeard Q) (settled L (shared_after L n (fated L f r s)))
    fated-Heard served (a, s') s n Q q = q
    fated-Heard lost (a, s') s n Q q = tt
    fated-Heard answer_lost (a, s') s n Q q = tt

    pub attempt-Triple {ℓ} :
        {A : Type ℓ} (P : Shared L → Type 0) (effect : Effect L A) (Q : A → Shared L → Type 0)
        → OthersKeep L P env
        → EffectGives P effect Q
        → Triple P (attempt L env effect) (IfHeard Q)
    unfolding attempt call
    attempt-Triple P effect Q others gives = record {
      after = λ w p.
          let m = env w.calls in
          let s = m.before w.shared in
          fated-Heard m.fate (effect m s) s (suc w.calls) Q
            (gives w.calls s (others w.calls w.shared p));
    }
