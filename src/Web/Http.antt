-- ===== src/Web/Http.antt =====
-- What the middleware and the handlers use of net/http, and the writers of
-- backend/internal/httpx/httpx.go. A response is what has been written when the handler returns.
use seatsync.Prelude.{
  ℕ, Bool, Option, none, some, List, [], ◌∷◌, Text, text_eq, Result, ok, err, codes, equal_fold,
  if◌then◌else◌,
}
use seatsync.Httpx.{ApiError, unauthorized}

-- A request's headers, query and path parameters by name (a missing one is empty), and the
-- identity that the middleware attaches to its context.
pub record Request : Type 0 where
  pub header : Text → Text
  pub query : Text → Text
  pub path_param : Text → Text
  pub remote_addr : Text
  pub over_tls : Bool
  pub user_id : Option ℕ
  pub role : Option Text
  pub request_id : Text

abbrev pub Headers : Type 0
Headers = List (Text × Text)

-- `Header.Set`
unfoldable pub set_header : Text → Text → Headers → Headers
set_header name value [] = (name, value) ∷ []
set_header name value ((n, v) ∷ hs) =
    let rest = set_header name value hs in
    if text_eq n name then (name, value) ∷ hs else (n, v) ∷ rest

pub data Body {ℓ} (Out : Type ℓ) : Type ℓ where
  problem : ApiError → Body Out
  json : Out → Body Out
  no_body : Body Out

pub record Response {ℓ} (Out : Type ℓ) : Type ℓ where
  pub headers : Headers
  pub status : ℕ
  pub body : Body Out

abbrev pub Handler {ℓ} : Type 0 → Type ℓ → Type ℓ
Handler S Out = Request → Headers → S → Response Out × S

abbrev pub json_headers : Headers → Headers
json_headers = set_header (codes "Content-Type") (codes "application/json; charset=utf-8")

module _ {ℓ} {Out : Type ℓ} where
  -- `Error`, `JSON` and `NoContent`, after the headers that were set before.
  abbrev pub write_error : Headers → ApiError → Response Out
  write_error hs e = record { headers = json_headers hs; status = e.status; body = problem e }

  abbrev pub write_json : Headers → ℕ → Out → Response Out
  write_json hs status v = record { headers = json_headers hs; status = status; body = json v }

  abbrev pub write_no_content : Headers → Response Out
  write_no_content hs = record { headers = hs; status = 204; body = no_body }

abbrev pub is_websocket_upgrade : Request → Bool
is_websocket_upgrade r = equal_fold (r.header (codes "Upgrade")) (codes "websocket")

abbrev pub authentication_required : ApiError
authentication_required = unauthorized (codes "Authentication is required.")

-- `MustUserID`
abbrev pub must_user_id : Request → Result ApiError ℕ
must_user_id r = elim r.user_id [ none ↦ err authentication_required | some u ↦ ok u ]
