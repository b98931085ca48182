-- ===== src/Web/Identity.antt =====
-- backend/internal/middleware/ratelimit.go: who is charged for a request. `net.SplitHostPort` is a
-- parameter, the host or nothing.
use seatsync.Prelude.{
  Bool, not, ◌&&◌, Option, none, some, ◌∷◌, ◌++◌, Text, codes, cut, trim_space, is_empty,
  if◌then◌else◌,
}
use seatsync.Locks.Uuids.{UuidCodec}
use seatsync.Web.Http.{Request}

-- The part before the first comma, or all of it.
abbrev pub first_entry : Text → Option (Text × Text) → Text
first_entry whole none = whole
first_entry whole (some (client, rest)) = client

abbrev pub host_or : Text → Option Text → Text
host_or addr none = addr
host_or addr (some host) = host

abbrev pub forwarded_client : Request → Text
forwarded_client r =
    let forwarded = r.header (codes "X-Forwarded-For") in
    trim_space (first_entry forwarded (cut b',' forwarded))

abbrev pub real_ip : Request → Text
real_ip r = trim_space (r.header (codes "X-Real-IP"))

-- The first argument is `trustProxyHeaders`. An empty forwarding header gives an empty client.
unfoldable pub client_ip : Bool → (Text → Option Text) → Request → Text
client_ip trust_proxy split_host_port r =
    if trust_proxy && not (is_empty (forwarded_client r))
    then forwarded_client r
    else if trust_proxy && not (is_empty (real_ip r))
    then real_ip r
    else host_or r.remote_addr (split_host_port r.remote_addr)

unfoldable pub caller_key : UuidCodec → Bool → (Text → Option Text) → Request → Text
caller_key U trust_proxy split_host_port r = elim r.user_id [
  | some user_id ↦ codes "user:" ++ U.to_text user_id
  | none ↦ codes "ip:" ++ client_ip trust_proxy split_host_port r
]

-- The key of a class of endpoints for a caller.
abbrev pub scoped_key : Text → Text → Text
scoped_key scope key = scope ++ b':' ∷ key
