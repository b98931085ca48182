-- ===== src/Accounts/Validation.antt =====
-- What a registration has passed, and how a failed sign-in answers.
use seatsync.Prelude.{
  ℕ, ◌≤◌, ◌≡◌, ◌≢◌, refl, ap, Bool, true, false, Option, none, some, [], ◌∷◌, Text, Result, ok, err,
  text_eq→eq, is_empty, trim_space, length, arith,
}
use seatsync.Httpx.{ApiError}
use seatsync.Services.World.{Service, ◌>>=◌, continue, lift, ensure}
use seatsync.Locks.Uuids.{UuidCodec}
use seatsync.Accounts.Tokens.{Jwt, TokenIssuer}
use seatsync.Accounts.World.{World, Schedule}
use seatsync.Accounts.Service.{
  Library, AuthResult, is_address, register, validate_email, validate_password,
}

-- What is asked of an email, a password and a name, blanks around the first and last aside.
pub record Acceptable (lib : Library) (email password name : Text) : Type 0 where
  pub email_full : email ≢ []
  pub email_short : length email ≤ 254
  pub email_address : lib.parse_address email ≡ some email
  pub password_full : password ≢ []
  pub password_long : 8 ≤ lib.rune_count password
  pub password_short : length password ≤ 72
  pub name_full : name ≢ []
  pub name_short : lib.rune_count name ≤ 100

is_address-some : (email : Text) (o : Option Text) → is_address email o ≡ true → o ≡ some email
is_address-some email none h = cc
is_address-some email (some a) h = ap (λ (x : Text). some x) (text_eq→eq a email h)

abbrev EmailOk : Library → Text → Type 0
EmailOk lib email =
    (is_empty email ≡ false)
    × (length email ≤ 254)
    × (is_address email (lib.parse_address email) ≡ true)

validate_email-ok :
    (lib : Library) (email : Text) (u : Unit {0})
    → validate_email lib email ≡ ok u
    → EmailOk lib email
unfolding validate_email
validate_email-ok lib email u h = ground arith

abbrev PasswordOk : Library → Text → Type 0
PasswordOk lib p = (is_empty p ≡ false) × (8 ≤ lib.rune_count p) × (length p ≤ 72)

validate_password-ok :
    (lib : Library) (p : Text) (u : Unit {0}) → validate_password lib p ≡ ok u → PasswordOk lib p
unfolding validate_password
validate_password-ok lib p u h = ground arith

-- Inversion of a part that answered.
bind-ok :
    {A B : Type 0} (m : Service World A) (f : A → Service World B) (w w' : World) (b : B)
    → (m >>= f) w ≡ (ok b, w')
    → (a : A) × (v : World) × (m w ≡ (ok a, v)) × (f a v ≡ (ok b, w'))
unfolding ◌>>=◌
bind-ok {A = A} {B = B} m f w w' b h = go (m w) refl h
  where
    go :
        (r : Result ApiError A × World)
        → m w ≡ r
        → continue f r ≡ (ok b, w')
        → (a : A) × (v : World) × (m w ≡ (ok a, v)) × (f a v ≡ (ok b, w'))
    go (ok a, v) e h = (a, v, e, h)
    go (err x, v) e h = cc

lift-ok :
    {A : Type 0} (r : Result ApiError A) (w v : World) (a : A) → lift r w ≡ (ok a, v) → r ≡ ok a
unfolding lift
lift-ok r w v a h = ap (λ (x : Result ApiError _ × World). x.0) h

ensure-ok :
    (b : Bool) (e : ApiError) (w v : World) (u : Unit {0}) → ensure b e w ≡ (ok u, v) → b ≡ true
unfolding ensure
ensure-ok true e w v u h = refl
ensure-ok false e w v u h = cc

is_empty-ne : (x : Text) → is_empty x ≡ false → x ≢ []
is_empty-ne [] h = cc
is_empty-ne (c ∷ x) h = λ e. cc

module _ (lib : Library) (U : UuidCodec) (J : Jwt) (t : TokenIssuer) (env : Schedule) where
  -- Register answers with success only for acceptable credentials: the trimmed email is an address of at most
  -- 254 bytes, the password has at least 8 characters and at most the 72 bytes that bcrypt reads,
  -- and the trimmed name has between 1 and 100 characters.
  pub register-Acceptable :
      (cost : ℕ) (email password name : Text) (w w' : World) (a : AuthResult)
      → register lib U J t env cost email password name w ≡ (ok a, w')
      → Acceptable lib (trim_space email) password (trim_space name)
  unfolding register
  register-Acceptable cost email password name w w' a h =
      let (u₁, w₁, e₁, h₁) = bind-ok _ _ w w' a h in
      let (u₂, w₂, e₂, h₂) = bind-ok _ _ w₁ w' a h₁ in
      let (u₃, w₃, e₃, h₃) = bind-ok _ _ w₂ w' a h₂ in
      let (u₄, w₄, e₄, h₄) = bind-ok _ _ w₃ w' a h₃ in
      let email_ok = validate_email-ok lib (trim_space email) u₁ (lift-ok _ w w₁ u₁ e₁) in
      let password_ok = validate_password-ok lib password u₂ (lift-ok _ w₁ w₂ u₂ e₂) in
      let has_name = ensure-ok _ _ w₂ w₃ u₃ e₃ in
      let name_fits = ensure-ok _ _ w₃ w₄ u₄ e₄ in
      record {
        email_full = is_empty-ne (trim_space email) email_ok.0;
        email_short = email_ok.1;
        email_address =
            is_address-some (trim_space email) (lib.parse_address (trim_space email)) email_ok.2;
        password_full = is_empty-ne password password_ok.0;
        password_long = password_ok.1;
        password_short = password_ok.2;
        name_full = is_empty-ne (trim_space name) (ground arith);
        name_short = ground arith;
      }
