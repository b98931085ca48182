-- ===== src/Accounts/Logic.antt =====
-- What holds of the account tables when a part of the service ends: one property if it answers, one
-- if it fails.
use seatsync.Prelude.{ℕ, suc, ◌≡◌, refl, Bool, true, false, Result, ok, err, if◌then◌else◌}
use seatsync.Httpx.{ApiError}
use seatsync.Services.World.{
  Fate, served, lost, answer_lost, Service, ◌>>=◌, continue, lift, ensure, quietly, keep_result,
}
use seatsync.Accounts.Rows.{Tables}
use seatsync.Accounts.World.{Moment, World, Schedule, Effect, settle, ask, look}

abbrev pub Outcome {ℓ} :
    {A : Type ℓ} → (A → Tables → Type 0) → (Tables → Type 0) → Result ApiError A × World → Type 0
Outcome Q E (ok a, w) = Q a w.tables
Outcome Q E (err e, w) = E w.tables

-- From tables with P, an answer comes with Q of it, and an error with E.
pub record Ends {ℓ} {A : Type ℓ} (P : Tables → Type 0) (m : Service World A)
    (Q : A → Tables → Type 0) (E : Tables → Type 0) : Type 0 where
  pub outcome : (w : World) → P w.tables → Outcome Q E (m w)

-- Whatever happens, P stays.
abbrev pub Keeps {ℓ} : {A : Type ℓ} → (Tables → Type 0) → Service World A → Type 0
Keeps P m = Ends P m (λ a. P) P

pub bind-Ends {ℓ κ} :
    {A : Type ℓ} {B : Type κ} (P : Tables → Type 0) (m : Service World A) (f : A → Service World B)
    (R : A → Tables → Type 0) (Q : B → Tables → Type 0) (E : Tables → Type 0)
    → Ends P m R E
    → ((a : A) → Ends (R a) (f a) Q E)
    → Ends P (m >>= f) Q E
unfolding ◌>>=◌
bind-Ends {A = A} P m f R Q E em ef = record { outcome = λ w p. go (m w) (em.outcome w p) }
  where
    go : (r : Result ApiError A × World) → Outcome R E r → Outcome Q E (continue f r)
    go (ok a, w) q = (ef a).outcome w q
    go (err e, w) q = q

pub bind-Keeps {ℓ κ} :
    {A : Type ℓ} {B : Type κ} (P : Tables → Type 0) (m : Service World A) (f : A → Service World B)
    → Keeps P m
    → ((a : A) → Keeps P (f a))
    → Keeps P (m >>= f)
bind-Keeps P m f km kf = bind-Ends P m f (λ a. P) (λ b. P) P km kf

pub lift-Ends :
    {A : Type 0} (P : Tables → Type 0) (r : Result ApiError A)
    → Ends P (lift r) (λ a ts. (r ≡ ok a) × P ts) P
unfolding lift
lift-Ends P (ok a) = record { outcome = λ w p. (refl, p) }
lift-Ends P (err e) = record { outcome = λ w p. p }

pub lift-Keeps {ℓ} : {A : Type ℓ} (P : Tables → Type 0) (r : Result ApiError A) → Keeps P (lift r)
unfolding lift
lift-Keeps P (ok a) = record { outcome = λ w p. p }
lift-Keeps P (err e) = record { outcome = λ w p. p }

pub ensure-Ends :
    (P : Tables → Type 0) (b : Bool) (e : ApiError)
    → Ends P (ensure b e) (λ u ts. (b ≡ true) × P ts) P
unfolding ensure
ensure-Ends P true e = record { outcome = λ w p. (refl, p) }
ensure-Ends P false e = record { outcome = λ w p. p }

pub ensure-Keeps : (P : Tables → Type 0) (b : Bool) (e : ApiError) → Keeps P (ensure b e)
unfolding ensure
ensure-Keeps P true e = record { outcome = λ w p. p }
ensure-Keeps P false e = record { outcome = λ w p. p }

pub look-Keeps {ℓ} :
    {A : Type ℓ} (P : Tables → Type 0) (env : Schedule) (f : Moment → A) → Keeps P (look env f)
unfolding look
look-Keeps P env f = record { outcome = λ w p. p }

pub quietly-Keeps {ℓ} :
    {A : Type ℓ} (P : Tables → Type 0) (m : Service World A) → Keeps P m → Keeps P (quietly m)
unfolding quietly
quietly-Keeps {A = A} P m k = record { outcome = λ w p. go (m w) (k.outcome w p) }
  where
    go :
        (r : Result ApiError A × World)
        → Outcome {A = A} (λ a. P) P r
        → Outcome {A = Unit {0}} (λ a. P) P (keep_result (ok tt) r)
    go (ok a, w) q = q
    go (err e, w) q = q

-- A stronger start and weaker ends.
pub weaken-Ends {ℓ} :
    {A : Type ℓ} (P P' : Tables → Type 0) (m : Service World A) (Q Q' : A → Tables → Type 0)
    (E E' : Tables → Type 0)
    → ((ts : Tables) → P' ts → P ts)
    → ((a : A) (ts : Tables) → Q a ts → Q' a ts)
    → ((ts : Tables) → E ts → E' ts)
    → Ends P m Q E
    → Ends P' m Q' E'
weaken-Ends {A = A} P P' m Q Q' E E' f g h e = record {
  outcome = λ w p. go (m w) (e.outcome w (f w.tables p));
}
  where
    go : (r : Result ApiError A × World) → Outcome Q E r → Outcome Q' E' r
    go (ok a, w) q = g a w.tables q
    go (err x, w) q = h w.tables q

-- What the others do keeps P.
abbrev pub OthersKeep : (Tables → Type 0) → Schedule → Type 0
OthersKeep P env = (n : ℕ) (ts : Tables) → P ts → P ((env n).before ts)

pub ask-Ends {ℓ} :
    {A : Type ℓ} (P : Tables → Type 0) (env : Schedule) (effect : Effect A)
    (Q : A → Tables → Type 0) (E : Tables → Type 0)
    → OthersKeep P env
    → ((n : ℕ) (ts : Tables) → P ts → Q (effect (env n) ts).0 (effect (env n) ts).1)
    → ((ts : Tables) → P ts → E ts)
    → ((a : A) (ts : Tables) → Q a ts → E ts)
    → Ends P (ask env effect) Q E
unfolding ask
ask-Ends {A = A} P env effect Q E others gives before after = record {
  outcome = λ w p.
      let m = env w.calls in
      let ts = m.before w.tables in
      let q = others w.calls w.tables p in
      go m.fate (effect m ts) ts (suc w.calls) q (gives w.calls ts q);
}
  where
    go :
        (f : Fate) (r : A × Tables) (ts : Tables) (n : ℕ)
        → P ts
        → Q r.0 r.1
        → Outcome Q E (settle n f r ts)
    go served (a, ts') ts n p q = q
    go lost (a, ts') ts n p q = before ts p
    go answer_lost (a, ts') ts n p q = after a ts' q

pub ask-Keeps {ℓ} :
    {A : Type ℓ} (P : Tables → Type 0) (env : Schedule) (effect : Effect A)
    → OthersKeep P env
    → ((n : ℕ) (ts : Tables) → P ts → P (effect (env n) ts).1)
    → Keeps P (ask env effect)
ask-Keeps P env effect others keeps =
    ask-Ends P env effect (λ a. P) P others keeps (λ ts p. p) (λ a ts p. p)

pub choose-Ends {ℓ} :
    {A : Type ℓ} (P : Tables → Type 0) (b : Bool) (m n : Service World A) (Q : A → Tables → Type 0)
    (E : Tables → Type 0)
    → (b ≡ true → Ends P m Q E)
    → (b ≡ false → Ends P n Q E)
    → Ends P (if b then m else n) Q E
choose-Ends P true m n Q E em en = em refl
choose-Ends P false m n Q E em en = en refl

-- No claim of the tables.
abbrev pub Nothing : Tables → Type 0
Nothing ts = Unit {0}

pub forget-Ends {ℓ} :
    {A : Type ℓ} (P : Tables → Type 0) (m : Service World A) (Q : A → Tables → Type 0)
    (E : Tables → Type 0)
    → Ends P m Q E
    → Ends P m Q Nothing
forget-Ends P m Q E e = weaken-Ends P P m Q Q E Nothing (λ ts p. p) (λ a ts q. q) (λ ts x. tt) e

-- A part that keeps P, before one that only its answers are asked of.
pub kept-Ends {ℓ κ} :
    {A : Type ℓ} {B : Type κ} (P : Tables → Type 0) (m : Service World A) (f : A → Service World B)
    (Q : B → Tables → Type 0)
    → Keeps P m
    → ((a : A) → Ends P (f a) Q Nothing)
    → Ends P (m >>= f) Q Nothing
kept-Ends P m f Q km ef = bind-Ends P m f (λ a. P) Q Nothing (forget-Ends P m (λ a. P) P km) ef

pub lift_ok-Ends {ℓ} :
    {A : Type ℓ} (P : Tables → Type 0) (r : Result ApiError A) (Q : A → Tables → Type 0)
    → ((a : A) (ts : Tables) → r ≡ ok a → P ts → Q a ts)
    → Ends P (lift r) Q Nothing
unfolding lift
lift_ok-Ends P (ok a) Q f = record { outcome = λ w p. f a w.tables refl p }
lift_ok-Ends P (err e) Q f = record { outcome = λ w p. tt }

pub trivial-Ends {ℓ} :
    {A : Type ℓ} (P : Tables → Type 0) (m : Service World A) → Ends P m (λ a. Nothing) Nothing
trivial-Ends {A = A} P m = record { outcome = λ w p. go (m w) }
  where
    go : (r : Result ApiError A × World) → Outcome (λ a. Nothing) Nothing r
    go (ok a, w) = tt
    go (err e, w) = tt

pub look-Ends {ℓ} :
    {A : Type ℓ} (P : Tables → Type 0) (env : Schedule) (f : Moment → A) (Q : A → Tables → Type 0)
    → ((m : Moment) (ts : Tables) → P ts → Q (f m) ts)
    → Ends P (look env f) Q Nothing
unfolding look
look-Ends P env f Q g = record { outcome = λ w p. g (env w.calls) w.tables p }
