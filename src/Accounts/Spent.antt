-- ===== src/Accounts/Spent.antt =====
-- A refresh token that was exchanged is never exchanged again.
use seatsync.Prelude.{
  ℕ, ◌≡◌, refl, Bool, true, false, Option, none, some, List, [], ◌∷◌, Text, text_eq, text_eq→eq,
  if◌then◌else◌, arith,
}
use seatsync.Repos.Booking.{is_some}
use seatsync.Accounts.Rows.{TokenRow, Tables, find_hash}
use seatsync.Accounts.Users.{create_user, insert_user}
use seatsync.Accounts.RefreshTokens.{
  insert_token, create_token, revoke_row, revoke_rows, has_id, is_of, revoke, revoke_all_for_user,
}
use seatsync.Accounts.Keeps.{Stable}

abbrev pub row_spent : Option TokenRow → Bool
row_spent none = false
row_spent (some t) = is_some t.revoked_at

-- The token with the hash is in the table and revoked.
abbrev pub Spent : Text → Tables → Type 0
Spent h ts = row_spent (find_hash h ts.tokens) ≡ true

abbrev pub change_row : (TokenRow → Bool) → ℕ → Option TokenRow → Option TokenRow
change_row test now none = none
change_row test now (some t) = some (if test t then revoke_row now t else t)

revoke_row-hash :
    (test : TokenRow → Bool) (now : ℕ) (t : TokenRow)
    → (if test t then revoke_row now t else t).token_hash ≡ t.token_hash
revoke_row-hash test now t = ground arith

pub find_hash-revoke_rows :
    (test : TokenRow → Bool) (now : ℕ) (h : Text) (ts : List TokenRow)
    → find_hash h (revoke_rows test now ts) ≡ change_row test now (find_hash h ts)
unfolding find_hash revoke_rows
find_hash-revoke_rows test now h [] = refl
find_hash-revoke_rows test now h (t ∷ ts) =
    rw (revoke_row-hash test now t, find_hash-revoke_rows test now h ts)
      (go (text_eq t.token_hash h))
  where
    go :
        (b : Bool)
        → (if b
            then some (if test t then revoke_row now t else t)
            else change_row test now (find_hash h ts))
          ≡ change_row test now (if b then some t else find_hash h ts)
    go true = refl
    go false = refl

change_row-spent :
    (test : TokenRow → Bool) (now : ℕ) (o : Option TokenRow)
    → row_spent o ≡ true
    → row_spent (change_row test now o) ≡ true
change_row-spent test now none h = cc
change_row-spent test now (some t) h = ground arith

Spent-create_token :
    (id user_id : ℕ) (hash : Text) (expires : ℕ) (h : Text) (ts : Tables)
    → Spent h ts
    → Spent h (create_token id user_id hash expires ts).1
unfolding create_token insert_token find_hash
Spent-create_token id user_id hash expires h ts s = ground (arith, text_eq→eq hash h)

Spent-create_user :
    (lower : Text → Text) (id now : ℕ) (email hash name role h : Text) (ts : Tables)
    → Spent h ts
    → Spent h (create_user lower id now email hash name role ts).1
unfolding create_user insert_user
Spent-create_user lower id now email hash name role h ts s = ground arith

pub Spent-Stable : (lower : Text → Text) (h : Text) → Stable lower (Spent h)
unfolding revoke revoke_all_for_user
Spent-Stable lower h = record {
  create_user-keeps = λ id now email hash name role ts s.
      Spent-create_user lower id now email hash name role h ts s;
  create_token-keeps =
      λ id user_id hash expires ts s. Spent-create_token id user_id hash expires h ts s;
  revoke-keeps = λ id now ts s.
      rw (find_hash-revoke_rows (has_id id) now h ts.tokens)
        (change_row-spent (has_id id) now (find_hash h ts.tokens) s);
  revoke_all-keeps = λ user_id now ts s.
      rw (find_hash-revoke_rows (is_of user_id) now h ts.tokens)
        (change_row-spent (is_of user_id) now (find_hash h ts.tokens) s);
}
