-- ===== src/Web/SignIns.antt =====
-- The handlers of backend/internal/handlers/auth.go.
use seatsync.Prelude.{ℕ, Text}
use seatsync.Models.{User}
use seatsync.Locks.Uuids.{UuidCodec}
use seatsync.Services.World.{Service, ◌>>=◌, lift}
use seatsync.Accounts.Tokens.{Jwt, TokenIssuer}
use seatsync.Accounts.World.{World, Schedule}
use seatsync.Accounts.Service.{Library, AuthResult, current_user, login, logout, refresh, register}
use seatsync.Web.Http.{Handler, write_error, write_json, write_no_content, must_user_id}
use seatsync.Web.Decode.{JsonBody, decode_json, answering}

pub data AccountPage : Type 0 where
  auth_page : AuthResult → AccountPage
  user_page : User → AccountPage

pub record RegisterRequest : Type 0 where
  pub email : Text
  pub password : Text
  pub name : Text

pub record LoginRequest : Type 0 where
  pub email : Text
  pub password : Text

module _ (lib : Library) (U : UuidCodec) (J : Jwt) (t : TokenIssuer) (env : Schedule) where
  unfoldable pub auth_register : ℕ → JsonBody RegisterRequest → Handler World AccountPage
  auth_register cost body r hs w =
      let work : Service World AuthResult = do
        req ← lift (decode_json body)
        register lib U J t env cost req.email req.password req.name
      in answering (write_error hs) (λ x. write_json hs 201 (auth_page x)) (work w)

  unfoldable pub auth_login : JsonBody LoginRequest → Handler World AccountPage
  auth_login body r hs w =
      let work : Service World AuthResult = do
        req ← lift (decode_json body)
        login lib U J t env req.email req.password
      in answering (write_error hs) (λ x. write_json hs 200 (auth_page x)) (work w)

  -- The body of `refreshRequest` is its only field.
  unfoldable pub auth_refresh : JsonBody Text → Handler World AccountPage
  auth_refresh body r hs w =
      let work : Service World AuthResult = do
        refresh_token ← lift (decode_json body)
        refresh lib U J t env refresh_token
      in answering (write_error hs) (λ x. write_json hs 200 (auth_page x)) (work w)

  unfoldable pub auth_logout : JsonBody Text → Handler World AccountPage
  auth_logout body r hs w =
      let work : Service World (Unit {0}) = do
        refresh_token ← lift (decode_json body)
        logout lib U J t env refresh_token
      in answering (write_error hs) (λ x. write_no_content hs) (work w)

  unfoldable pub auth_me : Handler World AccountPage
  auth_me r hs w =
      let work : Service World User = do
        user_id ← lift (must_user_id r)
        current_user lib U J t env user_id
      in answering (write_error hs) (λ x. write_json hs 200 (user_page x)) (work w)
