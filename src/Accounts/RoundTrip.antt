-- ===== src/Accounts/RoundTrip.antt =====
-- Registration, then signing in with the same email and password.
use seatsync.Prelude.{
  ℕ, ◌≡◌, refl, ap, subst, true, false, Option, some, List, Text, Result, ok, err, ok-injective,
  is_empty, trim_space, inl, inr, ◌⊎◌, arith,
}
use seatsync.Models.{User, role_user}
use seatsync.Httpx.{ApiError, internal}
use seatsync.Repos.{Error}
use seatsync.Services.World.{
  Fate, served, lost, answer_lost, ◌>>=◌, lift, ensure, with_errors, or_internal,
}
use seatsync.Locks.Uuids.{UuidCodec}
use seatsync.Accounts.Tokens.{Jwt, TokenIssuer}
use seatsync.Accounts.Rows.{Tables}
use seatsync.Accounts.Users.{create_user, user_by_email}
use seatsync.Accounts.World.{World, Schedule, ask, look}
use seatsync.Accounts.Service.{
  Library, AuthResult, sign_in, register, login, validate_email, validate_password, duplicate_as,
  account_exists,
}
use seatsync.Accounts.Logic.{
  Outcome, Ends, bind-Ends, ask-Ends, Nothing, kept-Ends, lift_ok-Ends, look-Ends, ensure-Keeps,
}
use seatsync.Accounts.Keeps.{Request, serve_all, serve_all-keeps, issue_tokens-Keeps}
use seatsync.Accounts.SignIn.{Says, IsInternal, sign_in-Says}
use seatsync.Accounts.Enrolled.{
  Enrolled, OthersKeepUsers, CompareGenerated, Created, create_user-Created, full_if_valid_email,
  full_if_valid_password, or_internal-ok, Enrolled-Stable, others-Enrolled,
}

module _ (lib : Library) (U : UuidCodec) (J : Jwt) (t : TokenIssuer) (env : Schedule)
    (others : OthersKeepUsers lib env) where
  sign_in-Enrolled :
      (email password : Text) (u : User)
      → Ends
          (Enrolled lib email password u)
          (sign_in lib U J t env u)
          (λ a ts. Enrolled lib email password a.user ts)
          Nothing
  unfolding sign_in
  sign_in-Enrolled email password u =
      kept-Ends E _ _ _
        (issue_tokens-Keeps lib U J t env E (Enrolled-Stable lib email password u)
          (others-Enrolled lib email password u env others) u)
        (λ tokens. lift_ok-Ends E (ok (record { user = u; tokens = tokens })) _ (λ a ts e p.
          subst (λ (x : AuthResult). Enrolled lib email password x.user ts) (ok-injective e) p))
    where
      E : Tables → Type 0
      E = Enrolled lib email password u

  user_answer-Ends :
      (email password : Text) (created : Result Error User)
      → Ends
          (Created lib email password created)
          (lift (with_errors (duplicate_as account_exists) created) >>= sign_in lib U J t env)
          (λ a ts. Enrolled lib email password a.user ts)
          Nothing
  user_answer-Ends email password (ok u) =
      bind-Ends (Enrolled lib email password u) _ _ (λ v ts. Enrolled lib email password v ts) _
        Nothing
        (lift_ok-Ends (Enrolled lib email password u) (ok u) _
          (λ v ts e p. subst (λ (x : User). Enrolled lib email password x ts) (ok-injective e) p))
        (λ v. sign_in-Enrolled email password v)
  user_answer-Ends email password (err x) =
      bind-Ends Nothing _ _ (λ v ts. ⊥) _ Nothing
        (lift_ok-Ends Nothing (err (duplicate_as account_exists x)) _
          (λ v ts e p. absurd (ground arith)))
        (λ v. record { outcome = λ w p. absurd p })

  -- An answer to a registration comes with the user enrolled.
  register-Enrolled :
      (cost : ℕ) (email password name : Text)
      → CompareGenerated lib
      → Ends Nothing
          (register lib U J t env cost email password name)
          (λ a ts. Enrolled lib (trim_space email) password a.user ts)
          Nothing
  unfolding register
  register-Enrolled cost email' password name generated =
      bind-Ends Nothing _ _ (λ u ts. is_empty email ≡ false) _ Nothing
        (lift_ok-Ends Nothing (validate_email lib email) _
          (λ u ts e p. full_if_valid_email lib email u e))
        (λ u.
          bind-Ends (λ ts. is_empty email ≡ false) _ _ (λ v. Full) _ Nothing
            (lift_ok-Ends _ (validate_password lib password) (λ v. Full)
              (λ v ts e p. (p, full_if_valid_password lib password v e)))
            (λ v. kept-Ends Full _ _ _ (ensure-Keeps Full _ _) (λ a.
              kept-Ends Full _ _ _ (ensure-Keeps Full _ _) (λ b.
                bind-Ends Full _ _ (λ hashed ts. Full ts × Generated hashed) _ Nothing hashing
                  (λ hashed.
                    bind-Ends (λ ts. Full ts × Generated hashed) _ _
                      (λ hash ts. Full ts × (lib.compare_hash_and_password hash password ≡ true)) _
                      Nothing
                      (lift_ok-Ends _ (or_internal hashed) _
                        (λ hash ts e p. (p.0, p.1 hash (or_internal-ok hashed e))))
                      (λ hash. creating hash))))))
    where
      email : Text
      email = trim_space email'

      Full : Tables → Type 0
      Full ts = (is_empty email ≡ false) × (is_empty password ≡ false)

      Generated : Option Text → Type 0
      Generated o =
          (hash : Text) → o ≡ some hash → lib.compare_hash_and_password hash password ≡ true

      hashing :
          Ends Full
            (look env (λ m. lib.generate_from_password cost m.salt password))
            (λ hashed ts. Full ts × Generated hashed)
            Nothing
      hashing =
          look-Ends Full env (λ m. lib.generate_from_password cost m.salt password) _
            (λ m ts p. (p, λ hash e. generated cost m.salt password hash e))

      creating :
          (hash : Text)
          → Ends
              (λ ts. Full ts × (lib.compare_hash_and_password hash password ≡ true))
              (ask env (λ m.
                  create_user lib.lower m.fresh_id m.now email hash (trim_space name) role_user)
                >>= λ created.
                    lift (with_errors (duplicate_as account_exists) created)
                    >>= sign_in lib U J t env)
              (λ a ts. Enrolled lib email password a.user ts)
              Nothing
      creating hash =
          bind-Ends _ _ _ (Created lib email password) _ Nothing
            (ask-Ends (λ ts. Full ts × (lib.compare_hash_and_password hash password ≡ true)) env _
              (Created lib email password) Nothing (λ n ts p. p)
              (λ n ts p.
                create_user-Created lib (env n).fresh_id (env n).now email hash (trim_space name)
                  password ts p.0.0 p.0.1 p.1)
              (λ ts p. tt) (λ a ts q. tt))
            (user_answer-Ends email password)

Fate-cases : (f : Fate) → (f ≡ served) ⊎ (f ≡ lost) ⊎ (f ≡ answer_lost)
Fate-cases served = inl refl
Fate-cases lost = inr (inl refl)
Fate-cases answer_lost = inr (inr refl)

-- The answer is of the user, or the failure is an internal error.
abbrev pub SignsIn : User → Result ApiError AuthResult → Type 0
SignsIn u r = ((b : AuthResult) × (r ≡ ok b) × (b.user ≡ u)) ⊎ (r ≡ err internal)

module _ (lib : Library) (U : UuidCodec) (J : Jwt) (t : TokenIssuer) (env : Schedule) where
  sign_in-SignsIn : (u : User) (w : World) → SignsIn u (sign_in lib U J t env u w).0
  sign_in-SignsIn u w = go (sign_in lib U J t env u w) refl
    where
      s : Says (sign_in lib U J t env u) (λ a. a.user ≡ u) IsInternal
      s = sign_in-Says lib U J t env u

      go : (r : Result ApiError AuthResult × World) → sign_in lib U J t env u w ≡ r → SignsIn u r.0
      go (ok b, v) e =
          inl (b, refl, s.answer_says w b (ap (λ (x : Result ApiError AuthResult × World). x.0) e))
      go (err x, v) e = inr (
          ap (λ (y : ApiError). err y)
            (s.error_says w x (ap (λ (y : Result ApiError AuthResult × World). y.0) e)))

  login-Enrolled :
      (email password : Text) (u : User) (w : World)
      → OthersKeepUsers lib env
      → Enrolled lib (trim_space email) password u w.tables
      → SignsIn u (login lib U J t env email password w).0
  unfolding login ◌>>=◌ ensure ask lift user_by_email
  login-Enrolled email password u w others e =
      let found = others (trim_space email) u w.calls w.tables e.has_email in
      elim (Fate-cases (env w.calls).fate) [
        | inl f ↦ rw (e.full_email, e.full_password, f, found, e.hash_matches) (sign_in-SignsIn u _)
        | inr (inl f) ↦ rw (e.full_email, e.full_password, f) (inr refl)
        | inr (inr f) ↦ rw (e.full_email, e.full_password, f) (inr refl)
      ]

-- Whoever has registered can sign in with the same email and password, both as they were sent then
-- (blanks around the email do no harm), after any requests: the answer is the registered user's, or
-- the failure is an internal error. It is asked of bcrypt that a generated hash matches, and of
-- others that they leave the users in place.
pub login-register :
    (lib : Library) (U : UuidCodec) (J : Jwt) (t : TokenIssuer) (first between again : Schedule)
    (cost : ℕ) (email password name : Text) (rs : List Request) (w w' : World) (a : AuthResult)
    → CompareGenerated lib
    → OthersKeepUsers lib first
    → OthersKeepUsers lib between
    → OthersKeepUsers lib again
    → register lib U J t first cost email password name w ≡ (ok a, w')
    → SignsIn a.user (login lib U J t again email password (serve_all lib U J t between rs w')).0
login-register lib U J t first between again cost email password name rs w w' a generated o₁ o₂ o₃
      e =
    login-Enrolled lib U J t again email password a.user _ o₃ later
  where
    enrolled : Enrolled lib (trim_space email) password a.user w'.tables
    enrolled =
        subst
          (Outcome (λ (b : AuthResult) ts. Enrolled lib (trim_space email) password b.user ts)
            Nothing)
          e ((register-Enrolled lib U J t first o₁ cost email password name generated).outcome w tt)

    later :
        Enrolled lib (trim_space email) password a.user (serve_all lib U J t between rs w').tables
    later =
        serve_all-keeps lib U J t between (Enrolled lib (trim_space email) password a.user)
          (Enrolled-Stable lib (trim_space email) password a.user)
          (others-Enrolled lib (trim_space email) password a.user between o₂) rs w' enrolled
