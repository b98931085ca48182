-- ===== src/Accounts/Rotation.antt =====
-- Refresh exchanges a token at most once, and a second presentation ends the user's sessions.
use seatsync.Prelude.{
  ℕ, suc, ◌≡◌, ◌≢◌, refl, sym, subst, Bool, true, false, Option, none, some, List, [], ◌∷◌, Text,
  Result, ok, err, ok-injective, is_empty, trim_space, ◌==◌, ==_refl, arith,
}
use seatsync.Httpx.{ApiError}
use seatsync.Repos.{Error, classified}
use seatsync.Repos.Booking.{is_some, or_no_rows}
use seatsync.Services.Holds.{missing_as}
use seatsync.Services.World.{◌>>=◌, lift, ensure, quietly, with_errors, served}
use seatsync.Locks.Uuids.{UuidCodec}
use seatsync.Accounts.Tokens.{Jwt, TokenIssuer}
use seatsync.Accounts.Rows.{TokenRow, Tables, find_hash}
use seatsync.Accounts.RefreshTokens.{
  RefreshToken, revoke_rows, has_id, is_of, revoke, revoke_all_for_user, token_by_hash, read_row,
}
use seatsync.Accounts.World.{World, Schedule, reading, ask}
use seatsync.Accounts.Service.{
  Library, AuthResult, hash_refresh_token, end_sessions, rotate, refresh_stored, refresh,
  bad_refresh_token,
}
use seatsync.Accounts.Logic.{
  Outcome, Ends, OthersKeep, bind-Ends, ensure-Keeps, look-Keeps, ask-Ends, ask-Keeps, weaken-Ends,
  choose-Ends, Nothing, forget-Ends, kept-Ends, lift_ok-Ends, lift-Keeps, trivial-Ends,
}
use seatsync.Accounts.Keeps.{sign_in-Keeps, Request, serve_all, serve_all-keeps}
use seatsync.Accounts.Spent.{row_spent, Spent, change_row, find_hash-revoke_rows, Spent-Stable}

-- The row with the hash has the id.
abbrev pub row_is : ℕ → Option TokenRow → Bool
row_is i none = false
row_is i (some t) = t.id == i

abbrev pub Known : Text → ℕ → Tables → Type 0
Known h i ts = row_is i (find_hash h ts.tokens) ≡ true

-- What a lookup by hash says of the tables.
abbrev Found : Text → Result Error RefreshToken → Tables → Type 0
Found h (err e) ts = Unit {0}
Found h (ok stored) ts =
    Known h stored.id ts × (row_spent (find_hash h ts.tokens) ≡ is_some stored.revoked_at)

token_by_hash-Found : (h : Text) (ts : Tables) → Found h (token_by_hash h ts) ts
unfolding token_by_hash
token_by_hash-Found h ts = go (find_hash h ts.tokens) refl
  where
    go :
        (o : Option TokenRow)
        → find_hash h ts.tokens ≡ o
        → Found h (classified (or_no_rows (read_row o))) ts
    go none e = tt
    go (some t) e = rw e (==_refl t.id, refl)

Known-revoke : (h : Text) (i now : ℕ) (ts : Tables) → Known h i ts → Spent h (revoke i now ts).1
unfolding revoke
Known-revoke h i now ts k =
    rw (find_hash-revoke_rows (has_id i) now h ts.tokens) (go (find_hash h ts.tokens) k)
  where
    go : (o : Option TokenRow) → row_is i o ≡ true → row_spent (change_row (has_id i) now o) ≡ true
    go none e = cc
    go (some t) e = ground arith

-- What the other parties do neither removes the row of the hash nor makes it live again.
pub record OthersRespect (h : Text) (env : Schedule) : Type 0 where
  pub known-kept : (i : ℕ) → OthersKeep (Known h i) env
  pub spent-kept : OthersKeep (Spent h) env

with_errors-ok {ℓ} :
    {A : Type ℓ} (f : Error → ApiError) (r : Result Error A) {a : A}
    → with_errors f r ≡ ok a
    → r ≡ ok a
with_errors-ok f (ok b) e = cc
with_errors-ok f (err x) e = cc

module _ (lib : Library) (U : UuidCodec) (J : Jwt) (t : TokenIssuer) (env : Schedule) (h : Text)
    (others : OthersRespect h env) where
  rotate-Spent :
      (stored : RefreshToken)
      → Ends (Known h stored.id) (rotate lib U J t env stored) (λ a. Spent h) Nothing
  unfolding rotate
  rotate-Spent stored = kept-Ends K _ _ _ (look-Keeps K env _) (λ clock.
      kept-Ends K _ _ _ (ensure-Keeps K _ _) (λ active.
        kept-Ends K _ _ _ (ask-Keeps K env _ (others.known-kept stored.id) (λ n ts k. k)) (λ found.
          kept-Ends K _ _ _ (lift-Keeps K _) (λ user.
            bind-Ends K _ _ (λ a. Spent h) _ Nothing spending
              (λ done.
                forget-Ends (Spent h) _ (λ a. Spent h) (Spent h)
                  (sign_in-Keeps lib U J t env (Spent h) (Spent-Stable lib.lower h)
                    others.spent-kept user))))))
    where
      K : Tables → Type 0
      K = Known h stored.id

      spending :
          Ends (Known h stored.id) (ask env (λ m. revoke stored.id m.now)) (λ a. Spent h) Nothing
      spending =
          ask-Ends (Known h stored.id) env _ (λ a. Spent h) Nothing (others.known-kept stored.id)
            (λ n ts k. Known-revoke h stored.id (env n).now ts k) (λ ts k. tt) (λ a ts s. tt)

  -- It never answers without an error.
  end_sessions-fails :
      (P : Tables → Type 0) (Q : AuthResult → Tables → Type 0) (user_id : ℕ)
      → Ends P (end_sessions lib U J t env user_id) Q Nothing
  unfolding end_sessions
  end_sessions-fails P Q user_id =
      bind-Ends P _ _ (λ a. Nothing) Q Nothing (trivial-Ends P _)
        (λ a. lift_ok-Ends Nothing (err bad_refresh_token) Q (λ r ts e n. absurd (ground arith)))

  -- The lookup of `refresh`, before what depends on its answer.
  refresh-Ends :
      (token : Text) (P : Tables → Type 0) (Q : AuthResult → Tables → Type 0)
      → hash_refresh_token lib (trim_space token) ≡ h
      → OthersKeep P env
      → ((stored : RefreshToken)
          → Ends
              (λ ts. Found h (ok stored) ts × P ts)
              (refresh_stored lib U J t env stored)
              Q
              Nothing)
      → Ends P (refresh lib U J t env token) Q Nothing
  unfolding refresh
  refresh-Ends token P Q e kept next = kept-Ends P _ _ Q (ensure-Keeps P _ _) (λ a.
      bind-Ends P _ _ (λ found ts. Found h found ts × P ts) Q Nothing looked_up
        (λ found.
          bind-Ends (λ ts. Found h found ts × P ts) _ _ (λ stored ts. Found h (ok stored) ts × P ts)
            Q Nothing (as_found found) next))
    where
      looked_up :
          Ends P
            (ask env (reading (token_by_hash (hash_refresh_token lib (trim_space token)))))
            (λ found ts. Found h found ts × P ts)
            Nothing
      looked_up =
          ask-Ends P env _ (λ found ts. Found h found ts × P ts) Nothing kept
            (λ n ts p. (
              subst (λ (x : Text). Found h (token_by_hash x ts) ts) (sym e)
                  (token_by_hash-Found h ts),
              p,
            ))
            (λ ts p. tt) (λ a ts q. tt)

      as_found :
          (found : Result Error RefreshToken)
          → Ends
              (λ ts. Found h found ts × P ts)
              (lift (with_errors (missing_as bad_refresh_token) found))
              (λ stored ts. Found h (ok stored) ts × P ts)
              Nothing
      as_found (ok stored) =
          lift_ok-Ends (λ ts. Found h (ok stored) ts × P ts) (ok stored) _
            (λ a ts e p. subst (λ (x : RefreshToken). Found h (ok x) ts × P ts) (ok-injective e) p)
      as_found (err x) =
          lift_ok-Ends (λ ts. Found h (err x) ts × P ts) (err (missing_as bad_refresh_token x)) _
            (λ a ts e p. absurd (ground arith))

  -- An answer comes with the token spent.
  refresh-Spent :
      (token : Text)
      → hash_refresh_token lib (trim_space token) ≡ h
      → Ends Nothing (refresh lib U J t env token) (λ a. Spent h) Nothing
  unfolding refresh_stored
  refresh-Spent token e =
      refresh-Ends token Nothing (λ a. Spent h) e (λ n ts p. tt)
        (λ stored.
          choose-Ends (λ ts. Found h (ok stored) ts × Nothing ts) (is_some stored.revoked_at)
            (end_sessions lib U J t env stored.user_id) (rotate lib U J t env stored) (λ a. Spent h)
            Nothing (λ e. end_sessions-fails _ _ stored.user_id)
            (λ e.
              weaken-Ends (Known h stored.id) _ _ (λ a. Spent h) (λ a. Spent h) Nothing Nothing
                (λ ts p. p.0.0) (λ a ts q. q) (λ ts x. tt) (rotate-Spent stored)))

  -- A spent token gets no answer.
  Spent-refresh :
      (token : Text)
      → hash_refresh_token lib (trim_space token) ≡ h
      → Ends (Spent h) (refresh lib U J t env token) (λ a ts. ⊥) Nothing
  unfolding refresh_stored
  Spent-refresh token e =
      refresh-Ends token (Spent h) (λ a ts. ⊥) e others.spent-kept
        (λ stored.
          choose-Ends (λ ts. Found h (ok stored) ts × Spent h ts) (is_some stored.revoked_at)
            (end_sessions lib U J t env stored.user_id) (rotate lib U J t env stored) (λ a ts. ⊥)
            Nothing (λ e. end_sessions-fails _ _ stored.user_id)
            (λ e. record {
              outcome = λ w p. absurd (
                  clash (row_spent (find_hash h w.tables.tokens)) (is_some stored.revoked_at) p.0.1
                    p.1 e);
            }))
    where
      clash : (a b : Bool) → a ≡ b → a ≡ true → b ≡ false → ⊥
      clash a b p q r = cc

-- Once Refresh has exchanged a token, no later Refresh exchanges it again, whatever requests are
-- served in between, whichever calls fail, and whatever others do that neither removes the
-- token's row nor makes it live again.
pub refresh_once :
    (lib : Library) (U : UuidCodec) (J : Jwt) (t : TokenIssuer) (first between again : Schedule)
    (token : Text) (rs : List Request) (w w' : World) (a : AuthResult)
    → OthersRespect (hash_refresh_token lib (trim_space token)) first
    → OthersRespect (hash_refresh_token lib (trim_space token)) between
    → OthersRespect (hash_refresh_token lib (trim_space token)) again
    → refresh lib U J t first token w ≡ (ok a, w')
    → (b : AuthResult)
    → (refresh lib U J t again token (serve_all lib U J t between rs w')).0 ≢ ok b
refresh_once lib U J t first between again token rs w w' a o₁ o₂ o₃ e b answered =
    never (refresh lib U J t again token (serve_all lib U J t between rs w')) refused answered
  where
    h : Text
    h = hash_refresh_token lib (trim_space token)

    spent : Spent h w'.tables
    spent =
        subst (Outcome {A = AuthResult} (λ a. Spent h) Nothing) e
          ((refresh-Spent lib U J t first h o₁ token refl).outcome w tt)

    later : Spent h (serve_all lib U J t between rs w').tables
    later =
        serve_all-keeps lib U J t between (Spent h) (Spent-Stable lib.lower h) o₂.spent-kept rs w'
          spent

    refused :
        Outcome {A = AuthResult}
          (λ a ts. ⊥)
          Nothing
          (refresh lib U J t again token (serve_all lib U J t between rs w'))
    refused = (Spent-refresh lib U J t again h o₃ token refl).outcome _ later

    never :
        (r : Result ApiError AuthResult × World) → Outcome (λ a ts. ⊥) Nothing r → r.0 ≡ ok b → ⊥
    never (ok c, v) q p = q
    never (err x, v) q p = cc

-- No token of the user is live.
abbrev pub NoneLive : ℕ → List TokenRow → Type 0
NoneLive user_id [] = Unit {0}
NoneLive user_id (t ∷ ts) =
    (t.user_id ≡ user_id → is_some t.revoked_at ≡ true) × NoneLive user_id ts

revoke_rows-NoneLive :
    (user_id now : ℕ) (ts : List TokenRow) → NoneLive user_id (revoke_rows (is_of user_id) now ts)
unfolding revoke_rows
revoke_rows-NoneLive user_id now [] = tt
revoke_rows-NoneLive user_id now (t ∷ ts) = (λ e. ground arith, revoke_rows-NoneLive user_id now ts)

module _ (lib : Library) (U : UuidCodec) (J : Jwt) (t : TokenIssuer) (env : Schedule) where
  abbrev pub looked_up : Text → World → Option TokenRow
  looked_up token w =
      find_hash (hash_refresh_token lib (trim_space token)) ((env w.calls).before w.tables).tokens

  -- A spent token, not blank, that is presented again is answered 401 if the lookup of its row is
  -- served, and if the revocation after it is served too, then afterwards no token of its user is
  -- live, those made by others meanwhile included.
  pub refresh-reused :
      (token : Text) (w : World) (row : TokenRow)
      → is_empty (trim_space token) ≡ false
      → (env w.calls).fate ≡ served
      → looked_up token w ≡ some row
      → is_some row.revoked_at ≡ true
      → ((refresh lib U J t env token w).0 ≡ err bad_refresh_token)
        × ((env (suc w.calls)).fate ≡ served
            → NoneLive row.user_id (refresh lib U J t env token w).1.tables.tokens)
  unfolding refresh ◌>>=◌ ensure ask lift token_by_hash refresh_stored end_sessions quietly
      revoke_all_for_user
  refresh-reused token w row full fate found spent =
      rw (full, fate, found, spent) (refl, λ f. rw f (revoke_rows-NoneLive row.user_id _ _))
