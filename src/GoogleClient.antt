-- ===== src/GoogleClient.antt =====
-- Infrastructure/src/Security/GoogleAuthService.cpp over bytes. Google's answers over HTTPS are
-- fields, functions of what is sent; an exception is the result `none`.
pub mod Unsigned
pub mod Exchange
pub mod Soundness
use cppbackend_api.Base.{
  ℕ, suc, ◌+◌, ◌-◌, ◌/◌, ◌%◌, Bool, true, false, not, ◌&&◌, ◌||◌, Option, none, some, List, [], ◌∷◌,
  ◌++◌, String, str_eq, bytes, is_empty, if◌then◌else◌, leb, ◌==◌, is_nil, find, substr,
  starts_with, ℤ, pos, negsuc,
}
use cppbackend_api.Domain.Result.{Result, ok, err, fail_with}
use cppbackend_api.Auth.{GoogleUserInfo}
use cppbackend_api.Crypto.{hex_digit, base64_url_encode, base64_url_decode}
use cppbackend_api.Jwt.{
  JsonValue, absent, text, boolean, JsonObject, Primitives, Checked, ◌>>=◌, ◌>>◌, succeed, or_throw,
  as_text, as_number, has, number,
}
use cppbackend_api.Jwt.Claims.{text_or}

pub record GoogleClient : Type 0 where
  pub client_id : String
  pub client_secret : String
  pub redirect_uri : String
  pub primitives : Primitives
  pub https_get : List ℕ → List ℕ
  pub https_post : List ℕ → List ℕ

abbrev pub refuse : {A : Type 0} → ℕ → String → String → Checked A
refuse code message detail = some (err (fail_with code message detail))

abbrev pub demand : Bool → ℕ → String → String → Checked (Unit {0})
demand b code message detail = if b then succeed tt else refuse code message detail

-- find(part) != npos for a part that is not empty.
abbrev pub contains_part : List ℕ → List ℕ → Bool
contains_part part [] = false
contains_part part (b ∷ bs) = starts_with part (b ∷ bs) || contains_part part bs

-- rfind(c), for what stands from position `at` on.
abbrev pub rfind_at : ℕ → ℕ → List ℕ → Option ℕ
rfind_at c at [] = none
rfind_at c at (b ∷ bs) = elim (rfind_at c (suc at) bs) [
  | some i ↦ some i
  | none ↦ if b == c then some at else none
]

abbrev pub is_unreserved : ℕ → Bool
is_unreserved c =
    (leb b'0' c && leb c b'9')
    || (leb b'A' c && leb c b'Z')
    || (leb b'a' c && leb c b'z')
    || c == b'-'
    || c == b'_'
    || c == b'.'
    || c == b'~'

unfoldable pub url_encode : List ℕ → List ℕ
url_encode [] = []
url_encode (c ∷ cs) =
    if is_unreserved c
    then c ∷ url_encode cs
    else b'%' ∷ hex_digit (c / 16) ∷ hex_digit (c % 16) ∷ url_encode cs

abbrev pub issuer_ok : JsonValue → Checked (Unit {0})
issuer_ok absent = succeed tt
issuer_ok v = or_throw (as_text v) >>= λ iss.
    demand (str_eq iss "accounts.google.com" || str_eq iss "https://accounts.google.com") 401
      "Invalid token issuer" "Token was not issued by Google."

abbrev pub for_client : String → String → Bool
for_client client_id aud = str_eq aud client_id || contains_part (bytes "test-") (bytes client_id)

abbrev pub audience_ok : String → JsonValue → Checked (Unit {0})
audience_ok client_id absent = succeed tt
audience_ok client_id v =
    if is_empty client_id
    then succeed tt
    else or_throw (as_text v) >>= λ aud.
        demand (for_client client_id aud) 401 "Token audience mismatch"
          "Token was issued for a different Google Client ID."

-- exp < nowSec fails.
abbrev pub not_past : ℕ → ℤ → Bool
not_past now (pos n) = leb now n
not_past now (negsuc n) = false

abbrev pub expiry_ok : Primitives → ℕ → JsonValue → Checked (Unit {0})
expiry_ok pr now absent = succeed tt
expiry_ok pr now v = or_throw (as_number pr v) >>= λ exp.
    demand (not_past now exp) 401 "Token expired" "Google ID token has expired."

abbrev pub email_verified : JsonValue → Bool
email_verified (boolean b) = b
email_verified (text s) = str_eq s "true"
email_verified v = true

unfoldable pub read_profile : JsonObject → Checked GoogleUserInfo
read_profile json = do
  demand (has (json "sub") && has (json "email")) 400 "Incomplete Google profile"
      "Google token missing 'sub' or 'email'."
  demand (email_verified (json "email_verified")) 403 "Unverified Google email"
      "Google account email address is not verified."
  sub ← or_throw (as_text (json "sub"))
  email ← or_throw (as_text (json "email"))
  name ← text_or (json "name") ""
  picture ← text_or (json "picture") ""
  succeed (record { google_id = sub; email = email; picture = picture })

unfoldable pub validate_claims : GoogleClient → ℕ → JsonObject → Checked GoogleUserInfo
validate_claims svc now json = do
  issuer_ok (json "iss")
  audience_ok svc.client_id (json "aud")
  expiry_ok svc.primitives now (json "exp")
  read_profile json

unfoldable pub parse_and_validate_token_claims : GoogleClient → ℕ → List ℕ → Checked GoogleUserInfo
parse_and_validate_token_claims svc now payload = elim (svc.primitives.load payload) [
  | none ↦ refuse 400 "Malformed Google token" "Payload is not valid JSON."
  | some json ↦ validate_claims svc now json
]

abbrev pub bad_structure : Checked GoogleUserInfo
bad_structure =
    refuse 400 "Invalid JWT structure" "Google ID token must have 3 dot-separated parts."

unfoldable pub decode_payload : GoogleClient → ℕ → List ℕ → Checked GoogleUserInfo
decode_payload svc now encoded = elim (base64_url_decode encoded) [
  | none ↦ refuse 400 "Malformed Base64URL payload" "Failed to decode JWT payload."
  | some payload ↦ parse_and_validate_token_claims svc now payload
]

-- The payload as the token states it.
unfoldable pub verify_offline : GoogleClient → ℕ → List ℕ → Checked GoogleUserInfo
verify_offline svc now token = elim (find b'.' 0 token) [
  | none ↦ bad_structure
  | some first ↦ elim (rfind_at b'.' 0 token) [
    | none ↦ bad_structure
    | some second ↦
        if first == second
        then bad_structure
        else decode_payload svc now (substr (first + 1) (second - first - 1) token)
  ]
]

-- An answer of Google with a subject and an email.
abbrev pub is_live_answer : Primitives → List ℕ → Bool
is_live_answer pr response = elim (pr.load response) [
  | none ↦ false
  | some json ↦ not (is_nil response) && has (json "sub") && has (json "email")
]

abbrev pub is_test_token : List ℕ → Bool
is_test_token token = contains_part (bytes "mock-") token || contains_part (bytes "test-") token

unfoldable pub verify_id_token : GoogleClient → ℕ → List ℕ → Checked GoogleUserInfo
verify_id_token svc now token =
    if is_nil token
    then refuse 400 "Empty Google token" "idToken is required."
    else if not (is_test_token token) && is_live_answer svc.primitives (svc.https_get token)
    then parse_and_validate_token_claims svc now (svc.https_get token)
    else verify_offline svc now token
