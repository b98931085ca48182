-- ===== src/Accounts/Enrolled.antt =====
-- A registered user stays in the table, and can sign in.
use seatsync.Prelude.{
  ℕ, ◌≡◌, refl, true, false, not, Option, none, some, List, [], ◌∷◌, Text, Result, ok, err, text_eq,
  text_eq→eq, text_eq_refl, is_empty, Bool-cases, inl, inr, arith,
}
use seatsync.Models.{User, role_user}
use seatsync.Repos.{Error}
use seatsync.Repos.Booking.{is_some}
use seatsync.Services.World.{or_internal}
use seatsync.Accounts.Rows.{Tables, find_user, find_email}
use seatsync.Accounts.Users.{create_user, insert_user, committed}
use seatsync.Accounts.RefreshTokens.{create_token, insert_token, revoke, revoke_all_for_user}
use seatsync.Accounts.World.{Schedule}
use seatsync.Accounts.Service.{Library, validate_email, validate_password}
use seatsync.Accounts.Logic.{OthersKeep}
use seatsync.Accounts.Keeps.{Stable}

-- The user that the email leads to.
abbrev pub HasEmail : (Text → Text) → Text → User → Tables → Type 0
HasEmail lower email u ts = find_email lower email ts.users ≡ some u

find_email-lower :
    (lower : Text → Text) (a b : Text) (us : List User)
    → lower a ≡ lower b
    → find_email lower a us ≡ find_email lower b us
unfolding find_email
find_email-lower lower a b us e = go us
  where
    go : (us : List User) → find_email lower a us ≡ find_email lower b us
    go [] = refl
    go (u ∷ us) = rw (e, go us) refl

HasEmail-insert :
    (lower : Text → Text) (email : Text) (u v : User) (ts : Tables)
    → HasEmail lower email u ts
    → HasEmail lower email u (committed ts (insert_user lower v ts)).1
unfolding insert_user find_email
HasEmail-insert lower email u v ts h = elim (Bool-cases (text_eq (lower v.email) (lower email))) [
  | inr e ↦ ground arith
  | inl e ↦ ground (
    arith,
    find_email-lower lower v.email email ts.users (text_eq→eq (lower v.email) (lower email) e),
  )
]

HasEmail-Stable :
    (lower : Text → Text) (email : Text) (u : User) → Stable lower (HasEmail lower email u)
unfolding create_user create_token insert_token revoke revoke_all_for_user
HasEmail-Stable lower email u = record {
  create_user-keeps = λ id now e hash name role ts h. HasEmail-insert lower email u _ ts h;
  create_token-keeps = λ id user_id hash expires ts h. ground arith;
  revoke-keeps = λ id now ts h. h;
  revoke_all-keeps = λ user_id now ts h. h;
}

-- What is left by a registration with an email and a password.
pub record Enrolled (lib : Library) (email password : Text) (u : User) (ts : Tables) : Type 0 where
  pub has_email : HasEmail lib.lower email u ts
  pub same_email : u.email ≡ email
  pub is_user : u.role ≡ role_user
  pub hash_matches : lib.compare_hash_and_password u.password_hash password ≡ true
  pub full_email : is_empty email ≡ false
  pub full_password : is_empty password ≡ false

-- Others leave every user in place.
abbrev pub OthersKeepUsers : Library → Schedule → Type 0
OthersKeepUsers lib env = (email : Text) (u : User) → OthersKeep (HasEmail lib.lower email u) env

-- bcrypt: a hash that was generated from a password matches it.
abbrev pub CompareGenerated : Library → Type 0
CompareGenerated lib =
    (cost : ℕ) (salt password hash : Text)
    → lib.generate_from_password cost salt password ≡ some hash
    → lib.compare_hash_and_password hash password ≡ true

pub full_if_valid_email :
    (lib : Library) (email : Text) (u : Unit {0})
    → validate_email lib email ≡ ok u
    → is_empty email ≡ false
unfolding validate_email
full_if_valid_email lib email u h = ground arith

pub full_if_valid_password :
    (lib : Library) (p : Text) (u : Unit {0}) → validate_password lib p ≡ ok u → is_empty p ≡ false
unfolding validate_password
full_if_valid_password lib p u h = ground arith

pub or_internal-ok : {A : Type 0} (o : Option A) {a : A} → or_internal o ≡ ok a → o ≡ some a
or_internal-ok none h = cc
or_internal-ok (some b) h = cc

Enrolled-HasEmail :
    (lib : Library) (email password : Text) (u : User) (ts ts' : Tables)
    → Enrolled lib email password u ts
    → HasEmail lib.lower email u ts'
    → Enrolled lib email password u ts'
Enrolled-HasEmail lib email password u ts ts' e h = record {
  has_email = h;
  same_email = e.same_email;
  is_user = e.is_user;
  hash_matches = e.hash_matches;
  full_email = e.full_email;
  full_password = e.full_password;
}

pub Enrolled-Stable :
    (lib : Library) (email password : Text) (u : User)
    → Stable lib.lower (Enrolled lib email password u)
Enrolled-Stable lib email password u =
    let S = HasEmail-Stable lib.lower email u in
    record {
      create_user-keeps = λ id now e hash name role ts h.
          Enrolled-HasEmail lib email password u ts _ h
            (S.create_user-keeps id now e hash name role ts h.has_email);
      create_token-keeps = λ id user_id hash expires ts h.
          Enrolled-HasEmail lib email password u ts _ h
            (S.create_token-keeps id user_id hash expires ts h.has_email);
      revoke-keeps = λ id now ts h.
          Enrolled-HasEmail lib email password u ts _ h (S.revoke-keeps id now ts h.has_email);
      revoke_all-keeps = λ user_id now ts h.
          Enrolled-HasEmail lib email password u ts _ h
            (S.revoke_all-keeps user_id now ts h.has_email);
    }

pub others-Enrolled :
    (lib : Library) (email password : Text) (u : User) (env : Schedule)
    → OthersKeepUsers lib env
    → OthersKeep (Enrolled lib email password u) env
others-Enrolled lib email password u env others n ts h =
    Enrolled-HasEmail lib email password u ts _ h (others email u n ts h.has_email)

-- What the statement that creates the user leaves.
abbrev pub Created : Library → Text → Text → Result Error User → Tables → Type 0
Created lib email password (ok u) ts = Enrolled lib email password u ts
Created lib email password (err e) ts = Unit {0}

pub create_user-Created :
    (lib : Library) (id now : ℕ) (email hash name password : Text) (ts : Tables)
    → is_empty email ≡ false
    → is_empty password ≡ false
    → lib.compare_hash_and_password hash password ≡ true
    → Created lib email password
        (create_user lib.lower id now email hash name role_user ts).0
        (create_user lib.lower id now email hash name role_user ts).1
unfolding create_user insert_user find_email
create_user-Created lib id now email hash name password ts fe fp m =
    elim (Bool-cases (not (is_some (find_user id ts.users)))) [
      | inr e ↦ rw e tt
      | inl e ↦ elim (Bool-cases (not (is_some (find_email lib.lower email ts.users)))) [
        | inr f ↦ rw (e, f) tt
        | inl f ↦
            rw (e, f)
              (record {
                has_email = rw (text_eq_refl (lib.lower email)) refl;
                same_email = refl;
                is_user = refl;
                hash_matches = m;
                full_email = fe;
                full_password = fp;
              })
      ]
    ]
