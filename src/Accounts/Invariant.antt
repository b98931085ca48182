-- ===== src/Accounts/Invariant.antt =====
-- What the schema promises of the account tables.
use seatsync.Prelude.{
  ℕ, ◌≡◌, refl, Bool, true, false, not, Option, none, some, List, [], ◌∷◌, Text, All, All-map,
  Bool-cases, inl, inr, arith,
}
use seatsync.Models.{User}
use seatsync.Repos.Booking.{is_some}
use seatsync.Locks.Uuids.{UuidCodec}
use seatsync.Accounts.Tokens.{Jwt, TokenIssuer}
use seatsync.Accounts.Rows.{TokenRow, Tables, find_user, find_email, find_hash, has_token_id}
use seatsync.Accounts.Users.{create_user, insert_user, committed}
use seatsync.Accounts.RefreshTokens.{
  insert_token, create_token, revoke_rows, has_id, is_of, revoke, revoke_all_for_user,
}
use seatsync.Accounts.Spent.{find_hash-revoke_rows}
use seatsync.Accounts.World.{World, Schedule}
use seatsync.Accounts.Service.{Library}
use seatsync.Accounts.Logic.{OthersKeep}
use seatsync.Accounts.Keeps.{Stable, Request, serve_all, serve_all-keeps}

-- No two users share an id, or an email up to case.
abbrev pub UniqueUsers : (Text → Text) → List User → Type 0
UniqueUsers lower [] = Unit {0}
UniqueUsers lower (u ∷ us) =
    (find_user u.id us ≡ none) × (find_email lower u.email us ≡ none) × UniqueUsers lower us

abbrev pub UniqueTokens : List TokenRow → Type 0
UniqueTokens [] = Unit {0}
UniqueTokens (t ∷ ts) =
    (has_token_id t.id ts ≡ false) × (find_hash t.token_hash ts ≡ none) × UniqueTokens ts

abbrev pub HasOwner : List User → TokenRow → Type 0
HasOwner us t = is_some (find_user t.user_id us) ≡ true

pub record IsSound (lower : Text → Text) (ts : Tables) : Type 0 where
  pub unique_users : UniqueUsers lower ts.users
  pub unique_tokens : UniqueTokens ts.tokens
  pub owners : All (HasOwner ts.users) ts.tokens

owners-cons :
    (u : User) (us : List User) (ts : List TokenRow)
    → All (HasOwner us) ts
    → All (HasOwner (u ∷ us)) ts
unfolding find_user
owners-cons u us ts = All-map ts (λ t h. ground arith)

is_none : {A : Type 0} (o : Option A) → not (is_some o) ≡ true → o ≡ none
is_none none h = refl
is_none (some a) h = cc

insert_user-IsSound :
    (lower : Text → Text) (u : User) (ts : Tables)
    → IsSound lower ts
    → IsSound lower (committed ts (insert_user lower u ts)).1
unfolding insert_user
insert_user-IsSound lower u ts s = elim (Bool-cases (not (is_some (find_user u.id ts.users)))) [
  | inr e ↦ rw e s
  | inl e ↦ elim (Bool-cases (not (is_some (find_email lower u.email ts.users)))) [
    | inr f ↦ rw (e, f) s
    | inl f ↦
        rw (e, f)
          (record {
            unique_users = (
              is_none (find_user u.id ts.users) e,
              is_none (find_email lower u.email ts.users) f,
              s.unique_users,
            );
            unique_tokens = s.unique_tokens;
            owners = owners-cons u ts.users ts.tokens s.owners;
          })
  ]
]

insert_token-IsSound :
    (lower : Text → Text) (t : TokenRow) (ts : Tables)
    → IsSound lower ts
    → IsSound lower (committed ts (insert_token t ts)).1
unfolding insert_token
insert_token-IsSound lower t ts s = elim (Bool-cases (has_token_id t.id ts.tokens)) [
  | inl e ↦ rw e s
  | inr e ↦ elim (Bool-cases (not (is_some (find_hash t.token_hash ts.tokens)))) [
    | inr f ↦ rw (e, f) s
    | inl f ↦ elim (Bool-cases (is_some (find_user t.user_id ts.users))) [
      | inr g ↦ rw (e, f, g) s
      | inl g ↦
          rw (e, f, g)
            (record {
              unique_users = s.unique_users;
              unique_tokens = (e, is_none (find_hash t.token_hash ts.tokens) f, s.unique_tokens);
              owners = (g, s.owners);
            })
    ]
  ]
]

has_token_id-revoke_rows :
    (test : TokenRow → Bool) (now i : ℕ) (ts : List TokenRow)
    → has_token_id i (revoke_rows test now ts) ≡ has_token_id i ts
unfolding has_token_id revoke_rows
has_token_id-revoke_rows test now i [] = refl
has_token_id-revoke_rows test now i (t ∷ ts) =
    ground (arith, has_token_id-revoke_rows test now i ts)

unique-revoke_rows :
    (test : TokenRow → Bool) (now : ℕ) (ts : List TokenRow)
    → UniqueTokens ts
    → UniqueTokens (revoke_rows test now ts)
unfolding revoke_rows
unique-revoke_rows test now [] u = tt
unique-revoke_rows test now (t ∷ ts) (i, h, u) = (
  ground (arith, has_token_id-revoke_rows test now t.id ts),
  ground (arith, find_hash-revoke_rows test now t.token_hash ts),
  unique-revoke_rows test now ts u,
)

owners-revoke_rows :
    (test : TokenRow → Bool) (now : ℕ) (us : List User) (ts : List TokenRow)
    → All (HasOwner us) ts
    → All (HasOwner us) (revoke_rows test now ts)
unfolding revoke_rows
owners-revoke_rows test now us [] a = tt
owners-revoke_rows test now us (t ∷ ts) (h, a) = (ground arith, owners-revoke_rows test now us ts a)

revoke_rows-IsSound :
    (lower : Text → Text) (test : TokenRow → Bool) (now : ℕ) (ts : Tables)
    → IsSound lower ts
    → IsSound lower (record ts { tokens = revoke_rows test now ts.tokens })
revoke_rows-IsSound lower test now ts s = record {
  unique_users = s.unique_users;
  unique_tokens = unique-revoke_rows test now ts.tokens s.unique_tokens;
  owners = owners-revoke_rows test now ts.users ts.tokens s.owners;
}

pub IsSound-Stable : (lower : Text → Text) → Stable lower (IsSound lower)
unfolding create_user create_token revoke revoke_all_for_user
IsSound-Stable lower = record {
  create_user-keeps = λ id now email hash name role ts s. insert_user-IsSound lower _ ts s;
  create_token-keeps = λ id user_id hash expires ts s. insert_token-IsSound lower _ ts s;
  revoke-keeps = λ id now ts s. revoke_rows-IsSound lower (has_id id) now ts s;
  revoke_all-keeps = λ user_id now ts s. revoke_rows-IsSound lower (is_of user_id) now ts s;
}

-- Any sequence of requests to register, sign in, refresh and sign out keeps the account tables
-- sound, whichever calls fail: user ids, emails up to case, token ids and token hashes are unique,
-- and every token has its user; others are asked to keep that too.
pub serve_all-IsSound :
    (lib : Library) (U : UuidCodec) (J : Jwt) (t : TokenIssuer) (env : Schedule) (rs : List Request)
    (w : World)
    → OthersKeep (IsSound lib.lower) env
    → IsSound lib.lower w.tables
    → IsSound lib.lower (serve_all lib U J t env rs w).tables
serve_all-IsSound lib U J t env rs w others s =
    serve_all-keeps lib U J t env (IsSound lib.lower) (IsSound-Stable lib.lower) others rs w s
