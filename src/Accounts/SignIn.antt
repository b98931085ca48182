-- ===== src/Accounts/SignIn.antt =====
-- Signing up and signing in.
use seatsync.Prelude.{ℕ, suc, ◌≡◌, refl, subst, Option, none, some, Result, ok, err, ok-injective}
use seatsync.Models.{User}
use seatsync.Httpx.{ApiError, internal}
use seatsync.Repos.{Error}
use seatsync.Services.World.{
  Fate, served, lost, answer_lost, Service, ◌>>=◌, lift, with_errors, or_internal, continue,
}
use seatsync.Locks.Uuids.{UuidCodec}
use seatsync.Accounts.Tokens.{Jwt, TokenIssuer}
use seatsync.Accounts.Rows.{Tables}
use seatsync.Accounts.World.{Moment, World, Schedule, Effect, settle, ask, look}
use seatsync.Accounts.Service.{Library, always_internal, issue_tokens, sign_in}

-- What a part answers, and with which errors.
pub record Says {A : Type 0} (m : Service World A) (Q : A → Type 0) (F : ApiError → Type 0)
    : Type 0 where
  pub answer_says : (w : World) (a : A) → (m w).0 ≡ ok a → Q a
  pub error_says : (w : World) (e : ApiError) → (m w).0 ≡ err e → F e

err-injective {ℓ} :
    {A : Type ℓ} {x y : ApiError} → ◌≡◌ {A = Result ApiError A} (err x) (err y) → x ≡ y
err-injective h = cc

bind-Says :
    {A B : Type 0} (m : Service World A) (f : A → Service World B) (R : A → Type 0) (Q : B → Type 0)
    (F : ApiError → Type 0)
    → Says m R F
    → ((a : A) → R a → Says (f a) Q F)
    → Says (m >>= f) Q F
unfolding ◌>>=◌
bind-Says {A = A} {B = B} m f R Q F sm sf = record {
  answer_says = λ w b h. go_ok (m w) (sm.answer_says w) b h;
  error_says = λ w e h. go_err (m w) (sm.answer_says w) (sm.error_says w) e h;
}
  where
    go_ok :
        (r : Result ApiError A × World)
        → ((a : A) → r.0 ≡ ok a → R a)
        → (b : B) → (continue f r).0 ≡ ok b
        → Q b
    go_ok (ok a, w) q b h = (sf a (q a refl)).answer_says w b h
    go_ok (err e, w) q b h = cc

    go_err :
        (r : Result ApiError A × World)
        → ((a : A) → r.0 ≡ ok a → R a)
        → ((e : ApiError) → r.0 ≡ err e → F e)
        → (e : ApiError) → (continue f r).0 ≡ err e
        → F e
    go_err (ok a, w) q p e h = (sf a (q a refl)).error_says w e h
    go_err (err x, w) q p e h = subst F (err-injective h) (p x refl)

abbrev pub IsInternal : ApiError → Type 0
IsInternal e = e ≡ internal

abbrev Any : {A : Type 0} → A → Type 0
Any a = Unit {0}

or_internal-Says : {A : Type 0} (o : Option A) → Says (lift (or_internal o)) Any IsInternal
unfolding lift
or_internal-Says none = record { answer_says = λ w a h. tt; error_says = λ w e h. cc }
or_internal-Says (some a) = record { answer_says = λ w b h. tt; error_says = λ w e h. cc }

look-Says : {A : Type 0} (env : Schedule) (f : Moment → A) → Says (look env f) Any IsInternal
unfolding look
look-Says env f = record { answer_says = λ w a h. tt; error_says = λ w e h. cc }

ask-Says : {A : Type 0} (env : Schedule) (effect : Effect A) → Says (ask env effect) Any IsInternal
unfolding ask
ask-Says {A = A} env effect = record {
  answer_says = λ w a h. tt;
  error_says = λ w e h.
      let m = env w.calls in
      go m.fate (effect m (m.before w.tables)) (m.before w.tables) (suc w.calls) e h;
}
  where
    go :
        (f : Fate) (r : A × Tables) (ts : Tables) (n : ℕ) (e : ApiError)
        → (settle n f r ts).0 ≡ err e
        → e ≡ internal
    go served r ts n e h = cc
    go lost r ts n e h = cc
    go answer_lost r ts n e h = cc

stored-Says :
    {A : Type 0} (r : Result Error A) → Says (lift (with_errors always_internal r)) Any IsInternal
unfolding lift
stored-Says (ok a) = record { answer_says = λ w b h. tt; error_says = λ w e h. cc }
stored-Says (err x) = record { answer_says = λ w b h. cc; error_says = λ w e h. cc }

answer-Says : {A : Type 0} (a : A) (Q : A → Type 0) → Q a → Says (lift (ok a)) Q IsInternal
unfolding lift
answer-Says a Q q = record {
  answer_says = λ w b h. subst Q (ok-injective h) q;
  error_says = λ w e h. cc;
}

module _ (lib : Library) (U : UuidCodec) (J : Jwt) (t : TokenIssuer) (env : Schedule) where
  issue_tokens-Says : (user : User) → Says (issue_tokens lib U J t env user) Any IsInternal
  unfolding issue_tokens
  issue_tokens-Says user = bind-Says _ _ Any Any IsInternal (look-Says env _) (λ signed u.
      bind-Says _ _ Any Any IsInternal (or_internal-Says signed) (λ pair u.
        bind-Says _ _ Any Any IsInternal (look-Says env _) (λ fresh u.
          bind-Says _ _ Any Any IsInternal (or_internal-Says fresh) (λ triple u.
            bind-Says _ _ Any Any IsInternal (ask-Says env _) (λ stored u.
              bind-Says _ _ Any Any IsInternal (stored-Says stored)
                (λ done u. answer-Says _ Any tt))))))

  -- Signing a user in answers with that user, or fails with an internal error.
  pub sign_in-Says :
      (user : User) → Says (sign_in lib U J t env user) (λ a. a.user ≡ user) IsInternal
  unfolding sign_in
  sign_in-Says user =
      bind-Says _ _ Any _ IsInternal (issue_tokens-Says user) (λ tokens u. answer-Says _ _ refl)
