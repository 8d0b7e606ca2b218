-- ===== src/Jwt/Claims.antt =====
-- JwtService::validateAccessToken from the payload on, as a whole, and createAccessToken.
use cppbackend_api.Base.{
  ℕ, ◌+◌, Bool, false, not, ◌&&◌, Option, none, some, List, [], ◌∷◌, ◌++◌, String, str_eq, ltb, ℤ,
  pos, negsuc,
}
use cppbackend_api.Access.{JwtClaims}
use cppbackend_api.Crypto.{base64_url_encode, base64_url_decode}
use cppbackend_api.Jwt.{
  JsonValue, absent, text, number, JsonObject, Fields, Primitives, JwtService, Checked, ◌>>=◌, ◌>>◌,
  succeed, ensure, given, or_throw, as_text, as_number, has, sign_rs256, signing_input, segments,
  header_kid, check_signature,
}

-- The time is not at or after `exp`: `nowSec >= exp` fails.
abbrev pub before : ℕ → ℤ → Bool
before now (pos n) = ltb now n
before now (negsuc n) = false

-- `nowSec < nbf`.
abbrev pub too_early : ℕ → ℤ → Bool
too_early now nbf = before now nbf

abbrev pub has_mandatory : JsonObject → Bool
has_mandatory payload =
    has (payload "iss")
    && has (payload "sub")
    && has (payload "aud")
    && has (payload "exp")
    && has (payload "jti")
    && has (payload "sid")

-- A number that may be missing, and a text that may be.
abbrev pub number_or : Primitives → JsonValue → ℤ → Checked ℤ
number_or pr absent z = succeed z
number_or pr v z = or_throw (as_number pr v)

abbrev pub text_or : JsonValue → String → Checked String
text_or absent s = succeed s
text_or v s = or_throw (as_text v)

unfoldable pub payload_object : Primitives → List ℕ → Checked JsonObject
payload_object pr encoded_payload = do
  raw ←
      given (base64_url_decode encoded_payload) "Invalid token payload"
        "Base64URL decoding failed for payload."
  given (pr.load raw) "Invalid token payload syntax" "Payload is not valid JSON."

-- The checks of the issuer, the audience and the two instants; exp and nbf are returned.
unfoldable pub check_claims : JwtService → ℕ → JsonObject → Checked (ℤ × ℤ)
check_claims svc now payload = do
  ensure (has_mandatory payload) "Missing mandatory JWT claims"
      "Claims must include iss, sub, aud, exp, jti, sid."
  iss ← or_throw (as_text (payload "iss"))
  ensure (str_eq iss svc.issuer) "Invalid token issuer" "Issuer does not match expected authority."
  aud ← or_throw (as_text (payload "aud"))
  ensure (str_eq aud svc.audience) "Invalid token audience"
      "Audience does not match expected target."
  exp ← or_throw (as_number svc.primitives (payload "exp"))
  ensure (before now exp) "Token has expired" "Token expiration timestamp has passed."
  nbf ← number_or svc.primitives (payload "nbf") (pos 0)
  ensure (not (too_early now nbf)) "Token not yet valid"
      "Current time is before token nbf timestamp."
  succeed (exp, nbf)

unfoldable pub read_claims : Primitives → String → JsonObject → ℤ × ℤ → Checked JwtClaims
read_claims pr kid payload (exp, nbf) = do
  iss ← or_throw (as_text (payload "iss"))
  sub ← or_throw (as_text (payload "sub"))
  aud ← or_throw (as_text (payload "aud"))
  iat ← number_or pr (payload "iat") (pos 0)
  jti ← or_throw (as_text (payload "jti"))
  sid ← or_throw (as_text (payload "sid"))
  role ← text_or (payload "role") "user"
  succeed (record {
    iss = iss;
    sub = sub;
    aud = aud;
    iat = iat;
    nbf = nbf;
    exp = exp;
    jti = jti;
    sid = sid;
    role = role;
    kid = kid;
  })

unfoldable pub validate_access_token : JwtService → ℕ → List ℕ → Checked JwtClaims
validate_access_token svc now token = do
  s ← segments token
  kid ← header_kid svc.primitives s.header
  check_signature svc kid s
  payload ← payload_object svc.primitives s.payload
  times ← check_claims svc now payload
  read_claims svc.primitives kid payload times

-- What one token is made for.
pub record Grant : Type 0 where
  pub user_id : String
  pub role : String
  pub session_id : String
  pub jti : String
  pub ttl : ℕ

abbrev pub header_fields : String → Fields
header_fields kid = ("alg", text "RS256") ∷ ("typ", text "JWT") ∷ ("kid", text kid) ∷ []

abbrev pub payload_fields : JwtService → ℕ → Grant → Fields
payload_fields svc now g =
    ("iss", text svc.issuer)
    ∷ ("sub", text g.user_id)
    ∷ ("aud", text svc.audience)
    ∷ ("iat", number (pos now))
    ∷ ("nbf", number (pos now))
    ∷ ("exp", number (pos (now + g.ttl)))
    ∷ ("jti", text g.jti)
    ∷ ("sid", text g.session_id)
    ∷ ("role", text g.role)
    ∷ []

abbrev pub signed : List ℕ → Option (List ℕ) → List ℕ
signed input none = []
signed input (some signature) = input ++ (b'.' ∷ signature)

-- The empty text where the key cannot sign.
unfoldable pub create_access_token : JwtService → ℕ → Grant → List ℕ
create_access_token svc now g =
    let pr = svc.primitives in
    let key = svc.key_manager.active_key in
    let header = base64_url_encode (pr.dump (header_fields key.kid)) in
    let payload = base64_url_encode (pr.dump (payload_fields svc now g)) in
    let input = signing_input header payload in
    signed input (sign_rs256 pr key.private_key_pem input)
