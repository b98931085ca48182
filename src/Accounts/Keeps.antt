-- ===== src/Accounts/Keeps.antt =====
-- A property of the account tables that the four writing statements keep is kept by every
-- operation of the service, and by any sequence of requests.
use seatsync.Prelude.{ℕ, List, [], ◌∷◌, Text, Result, ok, err, is_empty, trim_space}
use seatsync.Models.{User, role_user}
use seatsync.Repos.{Error}
use seatsync.Repos
use seatsync.Services.World.{lift, or_internal}
use seatsync.Locks.Uuids.{UuidCodec}
use seatsync.Accounts.Tokens.{Jwt, TokenIssuer}
use seatsync.Accounts.Rows.{Tables}
use seatsync.Accounts.Users.{create_user}
use seatsync.Accounts.RefreshTokens.{RefreshToken, create_token, revoke, revoke_all_for_user}
use seatsync.Accounts.World.{World, Schedule, reading, ask}
use seatsync.Accounts.Service.{
  Library, issue_tokens, sign_in, register, login, end_sessions, rotate, refresh_stored, refresh,
  revoke_found, logout, logout_token,
}
use seatsync.Accounts.Logic.{
  Outcome, Keeps, OthersKeep, bind-Keeps, lift-Keeps, ensure-Keeps, look-Keeps, quietly-Keeps,
  ask-Keeps, choose-Ends,
}

pub record Stable (lower : Text → Text) (P : Tables → Type 0) : Type 0 where
  pub create_user-keeps :
      (id now : ℕ) (email hash name role : Text) (ts : Tables)
      → P ts
      → P (create_user lower id now email hash name role ts).1
  pub create_token-keeps :
      (id user_id : ℕ) (hash : Text) (expires : ℕ) (ts : Tables)
      → P ts
      → P (create_token id user_id hash expires ts).1
  pub revoke-keeps : (id now : ℕ) (ts : Tables) → P ts → P (revoke id now ts).1
  pub revoke_all-keeps :
      (user_id now : ℕ) (ts : Tables) → P ts → P (revoke_all_for_user user_id now ts).1

module _ (lib : Library) (U : UuidCodec) (J : Jwt) (t : TokenIssuer) (env : Schedule)
    (P : Tables → Type 0) (stable : Stable lib.lower P) (others : OthersKeep P env) where
  read-Keeps {ℓ} : {A : Type ℓ} (f : Tables → A) → Keeps P (ask env (reading f))
  read-Keeps f = ask-Keeps P env (reading f) others (λ n ts p. p)

  pub issue_tokens-Keeps : (user : User) → Keeps P (issue_tokens lib U J t env user)
  unfolding issue_tokens
  issue_tokens-Keeps user = bind-Keeps P _ _ (look-Keeps P env _) (λ signed.
      bind-Keeps P _ _ (lift-Keeps P (or_internal signed)) (λ pair.
        bind-Keeps P _ _ (look-Keeps P env _) (λ fresh.
          bind-Keeps P _ _ (lift-Keeps P (or_internal fresh)) (λ triple.
            bind-Keeps P _ _
              (ask-Keeps P env _ others (λ n ts p.
                stable.create_token-keeps (env n).fresh_id user.id triple.1 triple.2 ts p))
              (λ stored. bind-Keeps P _ _ (lift-Keeps P _) (λ done. lift-Keeps P _))))))

  pub sign_in-Keeps : (user : User) → Keeps P (sign_in lib U J t env user)
  unfolding sign_in
  sign_in-Keeps user = bind-Keeps P _ _ (issue_tokens-Keeps user) (λ tokens. lift-Keeps P _)

  pub register-Keeps :
      (cost : ℕ) (email password name : Text)
      → Keeps P (register lib U J t env cost email password name)
  unfolding register
  register-Keeps cost email password name = bind-Keeps P _ _ (lift-Keeps P _) (λ a.
      bind-Keeps P _ _ (lift-Keeps P _) (λ b. bind-Keeps P _ _ (ensure-Keeps P _ _) (λ c.
        bind-Keeps P _ _ (ensure-Keeps P _ _) (λ d. bind-Keeps P _ _ (look-Keeps P env _) (λ hashed.
          bind-Keeps P _ _ (lift-Keeps P (or_internal hashed)) (λ hash.
            bind-Keeps P _ _
              (ask-Keeps P env _ others (λ n ts p.
                stable.create_user-keeps (env n).fresh_id (env n).now (trim_space email) hash
                  (trim_space name) role_user ts p))
              (λ created. bind-Keeps P _ _ (lift-Keeps P _) sign_in-Keeps)))))))

  pub login-Keeps : (email password : Text) → Keeps P (login lib U J t env email password)
  unfolding login
  login-Keeps email password = bind-Keeps P _ _ (ensure-Keeps P _ _) (λ a.
      bind-Keeps P _ _ (read-Keeps _) (λ found.
        bind-Keeps P _ _ (lift-Keeps P _)
          (λ user. bind-Keeps P _ _ (ensure-Keeps P _ _) (λ b. sign_in-Keeps user))))

  pub end_sessions-Keeps : (user_id : ℕ) → Keeps P (end_sessions lib U J t env user_id)
  unfolding end_sessions
  end_sessions-Keeps user_id =
      bind-Keeps P _ _
        (quietly-Keeps P _
          (ask-Keeps P env _ others (λ n ts p. stable.revoke_all-keeps user_id (env n).now ts p)))
        (λ a. lift-Keeps P _)

  revoke-Keeps : (id : ℕ) → Keeps P (ask env (λ m. revoke id m.now))
  revoke-Keeps id = ask-Keeps P env _ others (λ n ts p. stable.revoke-keeps id (env n).now ts p)

  pub rotate-Keeps : (stored : RefreshToken) → Keeps P (rotate lib U J t env stored)
  unfolding rotate
  rotate-Keeps stored = bind-Keeps P _ _ (look-Keeps P env _) (λ clock.
      bind-Keeps P _ _ (ensure-Keeps P _ _) (λ a. bind-Keeps P _ _ (read-Keeps _) (λ found.
        bind-Keeps P _ _ (lift-Keeps P _)
          (λ user. bind-Keeps P _ _ (revoke-Keeps stored.id) (λ done. sign_in-Keeps user)))))

  pub refresh-Keeps : (token : Text) → Keeps P (refresh lib U J t env token)
  unfolding refresh refresh_stored
  refresh-Keeps token = bind-Keeps P _ _ (ensure-Keeps P _ _) (λ a.
      bind-Keeps P _ _ (read-Keeps _) (λ found. bind-Keeps P _ _ (lift-Keeps P _) (λ stored.
        choose-Ends P _ _ _ (λ r. P) P (λ e. end_sessions-Keeps stored.user_id)
          (λ e. rotate-Keeps stored))))

  revoke_found-Keeps :
      (found : Result Error RefreshToken) → Keeps P (revoke_found lib U J t env found)
  unfolding revoke_found
  revoke_found-Keeps (ok stored) = revoke-Keeps stored.id
  revoke_found-Keeps (err Repos.Error.not_found) = lift-Keeps P _
  revoke_found-Keeps (err e) = lift-Keeps P _

  logout_token-Keeps : (token : Text) → Keeps P (logout_token lib U J t env token)
  unfolding logout_token
  logout_token-Keeps token = bind-Keeps P _ _ (read-Keeps _) revoke_found-Keeps

  pub logout-Keeps : (token : Text) → Keeps P (logout lib U J t env token)
  unfolding logout
  logout-Keeps token =
      choose-Ends P (is_empty (trim_space token)) (lift (ok tt)) (logout_token lib U J t env token)
        (λ r. P) P (λ e. lift-Keeps P (ok tt)) (λ e. logout_token-Keeps token)

-- The requests of the account endpoints.
pub data Request : Type 0 where
  registers : ℕ → Text → Text → Text → Request
  logs_in : Text → Text → Request
  refreshes logs_out : Text → Request

abbrev pub after {ℓ} : {A : Type ℓ} → A × World → World
after r = r.1

module _ (lib : Library) (U : UuidCodec) (J : Jwt) (t : TokenIssuer) where
  -- What a request leaves.
  unfoldable pub serve : Schedule → Request → World → World
  serve env (registers cost email password name) w =
      after (register lib U J t env cost email password name w)
  serve env (logs_in email password) w = after (login lib U J t env email password w)
  serve env (refreshes token) w = after (refresh lib U J t env token w)
  serve env (logs_out token) w = after (logout lib U J t env token w)

  unfoldable pub serve_all : Schedule → List Request → World → World
  serve_all env [] w = w
  serve_all env (r ∷ rs) w = serve_all env rs (serve env r w)

  outcome-tables {ℓ} :
      {A : Type ℓ} (P : Tables → Type 0) (r : Result _ A × World)
      → Outcome (λ a. P) P r
      → P r.1.tables
  outcome-tables P (ok a, w) p = p
  outcome-tables P (err e, w) p = p

  pub serve_all-keeps :
      (env : Schedule) (P : Tables → Type 0)
      → Stable lib.lower P
      → OthersKeep P env
      → (rs : List Request) (w : World) → P w.tables
      → P (serve_all env rs w).tables
  unfolding serve serve_all
  serve_all-keeps env P stable others [] w p = p
  serve_all-keeps env P stable others (r ∷ rs) w p =
      serve_all-keeps env P stable others rs (serve env r w) (one r)
    where
      one : (r : Request) → P (serve env r w).tables
      one (registers cost email password name) =
          outcome-tables P _
            ((register-Keeps lib U J t env P stable others cost email password name).outcome w p)
      one (logs_in email password) =
          outcome-tables P _
            ((login-Keeps lib U J t env P stable others email password).outcome w p)
      one (refreshes token) =
          outcome-tables P _ ((refresh-Keeps lib U J t env P stable others token).outcome w p)
      one (logs_out token) =
          outcome-tables P _ ((logout-Keeps lib U J t env P stable others token).outcome w p)
