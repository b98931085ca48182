-- ===== src/Web/Decode.antt =====
-- `DecodeJSON` of backend/internal/httpx/httpx.go and `uuidParam` of
-- backend/internal/handlers/events.go.
use seatsync.Prelude.{
  ℕ, Bool, true, false, Option, none, some, ◌++◌, Text, Result, ok, err, codes, decimal, is_empty,
  if◌then◌else◌,
}
use seatsync.Httpx.{ApiError, bad_request}
use seatsync.Locks.Uuids.{UuidCodec}
use seatsync.Web.Http.{Request}

-- The errors of encoding/json and of the limited reader that are told apart. The name of an unknown
-- field is as it stands in the error, without the quotes around it.
pub data DecodeError : Type 0 where
  end_of_input too_large unparsable : DecodeError
  syntax_error : ℕ → DecodeError
  wrong_type unknown_field : Text → DecodeError

-- The body as a decoder of the type `A` with at most a mebibyte reads it: the first value, and
-- whether the input ends after it. `quote` is `%q`.
pub record JsonBody (A : Type 0) : Type 0 where
  pub first : Result DecodeError A
  pub ends : Bool
  pub quote : Text → Text

abbrev pub max_body_bytes : ℕ
max_body_bytes = 1048576

abbrev pub decode_message : (Text → Text) → DecodeError → Text
decode_message quote end_of_input = codes "Request body must not be empty."
decode_message quote too_large = codes "Request body is too large."
decode_message quote (syntax_error offset) =
    codes "Request body contains malformed JSON at position " ++ decimal offset ++ codes "."
decode_message quote (wrong_type field) =
    codes "Field " ++ quote field ++ codes " has the wrong type."
decode_message quote (unknown_field field) =
    codes "Request body contains an unrecognised field " ++ quote field ++ codes "."
decode_message quote unparsable = codes "Request body could not be parsed."

abbrev pub one_value : {A : Type 0} → Bool → A → Result ApiError A
one_value true a = ok a
one_value false a = err (bad_request (codes "Request body must contain exactly one JSON object."))

unfoldable pub decode_json : {A : Type 0} → JsonBody A → Result ApiError A
decode_json body = elim body.first [
  | err e ↦ err (bad_request (decode_message body.quote e))
  | ok a ↦ one_value body.ends a
]

abbrev pub parsed_param : Text → Option ℕ → Result ApiError ℕ
parsed_param name none =
    err (bad_request (codes "The " ++ name ++ codes " in the path is not a valid UUID."))
parsed_param name (some id) = ok id

unfoldable pub uuid_param : UuidCodec → Request → Text → Result ApiError ℕ
uuid_param U r name =
    let raw = r.path_param name in
    if is_empty raw
    then err (bad_request (codes "Missing " ++ name ++ codes " in path."))
    else parsed_param name (U.parse raw)

-- How a handler answers: the error, or what it writes on success.
abbrev pub answering {ℓ κ} :
    {A : Type ℓ} {S : Type 0} {B : Type κ}
    → (ApiError → B)
    → (A → B)
    → Result ApiError A × S
    → B × S
answering refuse write (ok a, s) = (write a, s)
answering refuse write (err e, s) = (refuse e, s)
