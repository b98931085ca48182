-- ===== src/Web/Security.antt =====
-- backend/internal/middleware/security.go, the health endpoints of
-- backend/internal/handlers/health.go and the origin check of backend/internal/handlers/ws.go.
use seatsync.Prelude.{
  Bool, true, false, ◌&&◌, ◌||◌, Option, none, some, List, [], ◌∷◌, ◌++◌, Text, codes, text_eq,
  equal_fold, exists_in, is_empty, if◌then◌else◌,
}
use seatsync.Web.Http.{Request, Handler, Headers, Response, set_header, write_json}

abbrev pub safe_headers : Headers → Headers
safe_headers hs =
    set_header (codes "Permissions-Policy")
      (codes "geolocation=(), microphone=(), camera=(), payment=()")
      (set_header (codes "Content-Security-Policy")
        (codes "default-src 'none'; frame-ancestors 'none'; base-uri 'none'")
        (set_header (codes "Referrer-Policy") (codes "no-referrer") (
          set_header (codes "X-Frame-Options") (codes "DENY")
            (set_header (codes "X-Content-Type-Options") (codes "nosniff") hs))))

abbrev pub came_over_tls : Request → Bool
came_over_tls r = r.over_tls || text_eq (r.header (codes "X-Forwarded-Proto")) (codes "https")

module _ {ℓ} {S : Type 0} {Out : Type ℓ} where
  unfoldable pub security_headers : Handler S Out → Handler S Out
  security_headers next r hs s = next r (safe_headers hs) s

  unfoldable pub hsts : Bool → Handler S Out → Handler S Out
  hsts enabled next r hs s =
      if enabled && came_over_tls r
      then next r
          (set_header (codes "Strict-Transport-Security")
            (codes "max-age=31536000; includeSubDomains") hs)
          s
      else next r hs s

-- The components by name, in the order in which they are tried.
pub record HealthResponse : Type 0 where
  pub status : Text
  pub components : List (Text × Text)

unfoldable pub live : Headers → Response HealthResponse
live hs = write_json hs 200 (record { status = codes "ok"; components = [] })

-- The answer of a ping: none is a success, else the error's text.
abbrev pub component_status : Option Text → Text
component_status none = codes "ok"
component_status (some e) = codes "unavailable: " ++ e

abbrev pub answers : Option Text → Bool
answers none = true
answers (some e) = false

abbrev pub redis_component : Option (Option Text) → List (Text × Text)
redis_component none = []
redis_component (some ping) = (codes "redis", component_status ping) ∷ []

abbrev pub redis_answers : Option (Option Text) → Bool
redis_answers none = true
redis_answers (some ping) = answers ping

-- Without a Redis client its part is left out.
unfoldable pub ready : Option Text → Option (Option Text) → Headers → Response HealthResponse
ready postgres redis hs =
    let components = (codes "postgres", component_status postgres) ∷ redis_component redis in
    if answers postgres && redis_answers redis
    then write_json hs 200 (record { status = codes "ok"; components = components })
    else write_json hs 503 (record { status = codes "degraded"; components = components })

unfoldable pub origin_allowed : List Text → Request → Bool
origin_allowed allowed r =
    let origin = r.header (codes "Origin") in
    if is_empty origin then true else exists_in (λ candidate. equal_fold candidate origin) allowed
