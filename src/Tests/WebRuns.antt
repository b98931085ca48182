-- ===== src/Tests/WebRuns.antt =====
-- A signer that only knows users named by one byte, and requests of two of them.
use seatsync.Prelude.{
  ℕ, ◌+◌, ◌-◌, ◌*◌, ◌≡◌, refl, Bool, true, false, ◌&&◌, Option, none, some, List, [], ◌∷◌, ◌++◌,
  Text, Result, ok, err, text_eq, text_eq→eq, ltb, codes, trim_left, trim_space, is_empty, contains,
  if◌then◌else◌, arith, ceil_div,
}
use seatsync.Accounts.Tokens.{
  Claims, Jwt, JwtError, jwt_expired, jwt_other, TokenIssuer, new_access_token, parse_access_token,
  token_issuer,
}
use seatsync.RateLimit.Limiter.{allow, run_script, read_reply}
use seatsync.RateLimit.Script.{bucket_script, refill, draw}
use seatsync.Web.Http.{Request, Handler, write_json}
use seatsync.Web.Identity.{caller_key}
use seatsync.Web.Keys.{caller_key-injective}
use seatsync.Web.Auth.{require_auth, with_identity}
use seatsync.Web.Guards.{require_auth-new_access_token}
use seatsync.Web.Limit.{retry_after_seconds, answer_to, rate_limit-retry}
use seatsync.Tests.Stores.{letters}
use seatsync.Tests.LimitRuns.{hashes, half_a_second, find_hash, end_hash, Hash}

abbrev pub claims_for : ℕ → ℕ → ℕ → ℕ → Claims
claims_for a issued not_before expires = record {
  subject = a ∷ [];
  issuer = token_issuer;
  issued_at = issued;
  not_before = not_before;
  expires_at = expires;
  id = codes "i";
  role = codes "user";
}

abbrev pub is_plain : Claims → Bool
is_plain c =
    text_eq c.issuer token_issuer && (text_eq c.id (codes "i") && text_eq c.role (codes "user"))

unfoldable pub sign_subject : Claims → Text → Option Text
sign_subject c [] = none
sign_subject c (a ∷ []) =
    if is_plain c
    then some ((a + 100) ∷ (c.issued_at + 100) ∷ (c.not_before + 100) ∷ (c.expires_at + 100) ∷ [])
    else none
sign_subject c (a ∷ b ∷ x) = none

unfoldable pub read_claims : ℕ → Text → Result JwtError Claims
read_claims now (a ∷ i ∷ n ∷ e ∷ []) =
    if ltb now (1000 * (e - 100))
    then ok (claims_for (a - 100) (i - 100) (n - 100) (e - 100))
    else err jwt_expired
read_claims now other = err jwt_other

plain-eq :
    (c : Claims) (a : ℕ)
    → c.subject ≡ a ∷ []
    → is_plain c ≡ true
    → c ≡ claims_for a c.issued_at c.not_before c.expires_at
plain-eq c a s h = ground (
  arith,
  text_eq→eq c.issuer token_issuer,
  text_eq→eq c.id (codes "i"),
  text_eq→eq c.role (codes "user"),
)

pub read-sign :
    (c : Claims) (now : ℕ) (raw subject : Text)
    → c.subject ≡ subject
    → sign_subject c subject ≡ some raw
    → read_claims now raw ≡ (if ltb now (1000 * c.expires_at) then ok c else err jwt_expired)
unfolding sign_subject read_claims
read-sign c now raw [] s h = cc
read-sign c now raw (a ∷ b ∷ x) s h = cc
read-sign c now raw (a ∷ []) s h = ground (arith, plain-eq c a s)

pub sign-trimmed :
    (c : Claims) (raw subject : Text)
    → sign_subject c subject ≡ some raw
    → (trim_space raw ≡ raw) × (is_empty raw ≡ false)
unfolding sign_subject trim_space trim_left
sign-trimmed c raw [] h = cc
sign-trimmed c raw (a ∷ b ∷ x) h = cc
sign-trimmed c raw (a ∷ []) h = ground arith

abbrev pub plain_jwt : Jwt
plain_jwt = record {
  sign = λ secret c. sign_subject c c.subject;
  parse_with_claims = λ secret issuer now raw. read_claims now raw;
  parse-sign = λ secret c now raw h le. read-sign c now raw c.subject refl h;
  sign-trimmed = λ secret c raw h. sign-trimmed c raw c.subject h;
}

abbrev pub quarter_hour : TokenIssuer
quarter_hour = record { secret = codes "s"; access_ttl = 900000; refresh_ttl = 2592000000 }

-- The token of user 7, issued at second 2.
abbrev pub token_of_7 : Text
token_of_7 = 166 ∷ 102 ∷ 102 ∷ 1002 ∷ []

abbrev pub with_token : Text → Request
with_token raw = record {
  header = λ name. if text_eq name (codes "Authorization") then codes "Bearer " ++ raw else [];
  query = λ name. [];
  path_param = λ name. [];
  remote_addr = codes "10.0.0.1:5000";
  over_tls = false;
  user_id = none;
  role = none;
  request_id = [];
}

-- A handler that answers with the caller's identity.
abbrev whoami : {S : Type 0} → Handler S (Option ℕ)
whoami r hs s = (write_json hs 200 r.user_id, s)

require_auth-new_access_token_example :
    require_auth {S = ℕ} letters
      (parse_access_token plain_jwt quarter_hour 900000)
      whoami
      (with_token token_of_7)
      []
      3
    ≡ (write_json {Out = Option ℕ} [] 200 (some 7), 3)
unfolding new_access_token sign_subject text_eq
require_auth-new_access_token_example =
    require_auth-new_access_token letters plain_jwt quarter_hour whoami 2500 900000 7 902500
      (codes "i") (codes "user") token_of_7 (with_token token_of_7) [] 3 refl (omega arith) refl

abbrev pub no_split : Text → Option Text
no_split addr = none

abbrev as_user : ℕ → Request
as_user u = with_identity (with_token token_of_7) u (codes "user")

caller_key-injective_example : ◌≡◌ {A = Text} (codes "write") (codes "write")
unfolding contains
caller_key-injective_example =
    (caller_key-injective letters false no_split (codes "write") (codes "write") (as_user 7)
      (as_user 7) refl refl refl).0

abbrev after_two : List Hash
after_two =
    (answer_to hashes letters false no_split (codes "write") half_a_second 1006 1001 (as_user 7)
      (answer_to hashes letters false no_split (codes "write") half_a_second 1005 1000 (as_user 7)
        []).1).1

-- The third request is told to wait a second; two seconds later it is let through.
rate_limit-retry_example :
    (answer_to hashes letters false no_split
      (codes "write")
      half_a_second
      3010
      3003
      (as_user 7)
      (answer_to hashes letters false no_split
        (codes "write")
        half_a_second
        1008
        1003
        (as_user 7)
        after_two).1).0.decision.allowed
    ≡ true
unfolding allow run_script read_reply bucket_script refill draw ceil_div find_hash end_hash text_eq
    retry_after_seconds caller_key
rate_limit-retry_example =
    (rate_limit-retry hashes letters false no_split (codes "write") half_a_second {S = ℕ} whoami
        1008 1003 3010 3003 (as_user 7) [] after_two 0 refl (omega arith) (omega arith)
        (omega arith) (omega arith)).2
      (omega arith)
