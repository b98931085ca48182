-- ===== src/Httpx.antt =====
-- backend/internal/httpx/httpx.go: the typed API error and its constructors. What is only logged
-- (the wrapped cause) is left out.
use seatsync.Prelude.{ℕ, Text, List, codes}

pub data ErrorCode : Type 0 where
  code_bad_request code_validation code_unauthorized code_forbidden code_not_found : ErrorCode
  code_conflict code_seats_taken code_hold_expired code_payment_failed code_rate_limited : ErrorCode
  code_internal : ErrorCode

-- The structured context that the services attach.
pub data Details : Type 0 where
  no_details : Details
  unavailable_seat_ids expired_seat_ids : List ℕ → Details
  for_booking : ℕ → Details
  retry_allowed : ℕ → ℕ → Text → ℕ → Details
  retry_after_seconds : ℕ → Details

pub record ApiError : Type 0 where
  pub status : ℕ
  pub code : ErrorCode
  pub message : Text
  pub details : Details

abbrev pub with_details : ApiError → Details → ApiError
with_details e d = record e { details = d }

abbrev pub api_error : ℕ → ErrorCode → Text → ApiError
api_error s c m = record { status = s; code = c; message = m; details = no_details }

abbrev pub bad_request : Text → ApiError
bad_request = api_error 400 code_bad_request

abbrev pub validation : Text → ApiError
validation = api_error 422 code_validation

abbrev pub unauthorized : Text → ApiError
unauthorized = api_error 401 code_unauthorized

abbrev pub forbidden : Text → ApiError
forbidden = api_error 403 code_forbidden

abbrev pub not_found : Text → ApiError
not_found = api_error 404 code_not_found

abbrev pub conflict : ErrorCode → Text → ApiError
conflict = api_error 409

abbrev pub internal : ApiError
internal = api_error 500 code_internal (codes "Something went wrong on our side.")
