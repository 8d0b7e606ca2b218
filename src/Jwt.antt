-- ===== src/Jwt.antt =====
-- Infrastructure/src/Security/JwtService.cpp: access tokens, signed by the active key of `Keys`.
-- RSA signatures and JSON texts are the libraries': fields of `Primitives`.
pub mod Claims
pub mod Signed
pub mod Reading
pub mod Soundness
pub mod RoundTrip
use cppbackend_api.Base.{
  ℕ, ◌+◌, ◌-◌, Bool, true, false, not, ◌&&◌, ◌||◌, Option, none, some, List, [], ◌∷◌, ◌++◌, String,
  str_eq, append, if◌then◌else◌, is_some, find, take, drop, substr, ℤ, pos, at_least, ltb,
}
use cppbackend_api.Domain.Result.{Result, ok, err, DomainError, fail_with}
use cppbackend_api.Crypto.{base64_url_encode, base64_url_decode}
use cppbackend_api.Keys.{KeyManager, get_verification_public_key_pem}

-- A member of a JSON object. `other` is any other value, such as a number that is no int64_t.
pub data JsonValue : Type 0 where
  absent : JsonValue
  text : String → JsonValue
  number : ℤ → JsonValue
  boolean : Bool → JsonValue
  other : JsonValue

abbrev pub JsonObject : Type 0
JsonObject = String → JsonValue

-- What a program writes into an object.
abbrev pub Fields : Type 0
Fields = List (String × JsonValue)

-- crow::json::load and dump, the reading of a text as a number, and the RSA signature and its check
-- with a key in PEM. None where a text is no JSON, no number, or a signature cannot be made.
pub record Primitives : Type 0 where
  pub load : List ℕ → Option JsonObject
  pub dump : Fields → List ℕ
  pub text_number : String → Option ℤ
  pub raw_sign : String → List ℕ → Option (List ℕ)
  pub raw_verify : String → List ℕ → List ℕ → Bool

pub record JwtService : Type 0 where
  pub key_manager : KeyManager
  pub issuer : String
  pub audience : String
  pub primitives : Primitives

-- A result, or none where an exception is thrown.
abbrev pub Checked : Type 0 → Type 0
Checked A = Option (Result A)

infixl 5 ◌>>=◌ ◌>>◌
abbrev pub ◌>>=◌ : {A B : Type 0} → Checked A → (A → Checked B) → Checked B
none >>= f = none
(some (err e)) >>= f = some (err e)
(some (ok a)) >>= f = f a

abbrev pub ◌>>◌ : {B : Type 0} → Checked (Unit {0}) → Checked B → Checked B
m >> k = m >>= λ _. k

abbrev pub succeed : {A : Type 0} → A → Checked A
succeed a = some (ok a)

-- A refusal with the code 401.
abbrev pub reject : {A : Type 0} → String → String → Checked A
reject message detail = some (err (fail_with 401 message detail))

abbrev pub ensure : Bool → String → String → Checked (Unit {0})
ensure b message detail = if b then succeed tt else reject message detail

-- A value, or a refusal.
abbrev pub given : {A : Type 0} → Option A → String → String → Checked A
given none message detail = reject message detail
given (some a) message detail = succeed a

-- A value, or an exception.
abbrev pub or_throw : {A : Type 0} → Option A → Checked A
or_throw none = none
or_throw (some a) = succeed a

-- The accessor .s().
abbrev pub as_text : JsonValue → Option String
as_text (text s) = some s
as_text v = none

-- The accessor .i().
abbrev pub as_number : Primitives → JsonValue → Option ℤ
as_number pr (number z) = some z
as_number pr (text s) = pr.text_number s
as_number pr v = none

abbrev pub has : JsonValue → Bool
has absent = false
has v = true

-- OpenSslCrypto::signRs256 and verifyRs256.
abbrev pub encoded : Option (List ℕ) → Option (List ℕ)
encoded none = none
encoded (some raw) = some (base64_url_encode raw)

unfoldable pub sign_rs256 : Primitives → String → List ℕ → Option (List ℕ)
sign_rs256 pr private_key_pem message = encoded (pr.raw_sign private_key_pem message)

unfoldable pub verify_rs256 : Primitives → String → List ℕ → List ℕ → Bool
verify_rs256 pr public_key_pem message signature = elim (base64_url_decode signature) [
  | none ↦ false
  | some raw ↦ pr.raw_verify public_key_pem message raw
]

abbrev pub signing_input : List ℕ → List ℕ → List ℕ
signing_input header payload = header ++ (b'.' ∷ payload)

pub record Segments : Type 0 where
  pub header : List ℕ
  pub payload : List ℕ
  pub signature : List ℕ

abbrev pub three_segments : {A : Type 0} → Checked A
three_segments = reject "Malformed token format" "Token must have exactly 3 segments."

-- The parts of the token, its first dot at `first`.
unfoldable pub segments_after : List ℕ → ℕ → Checked Segments
segments_after token first = elim (find b'.' (first + 1) token) [
  | none ↦ three_segments
  | some second ↦
      if is_some (find b'.' (second + 1) token)
      then three_segments
      else succeed (record {
        header = take first token;
        payload = substr (first + 1) (second - (first + 1)) token;
        signature = drop (second + 1) token;
      })
]

unfoldable pub segments : List ℕ → Checked Segments
segments token = elim (find b'.' 0 token) [
  | none ↦ reject "Malformed token format" "Token does not contain expected dot delimiters."
  | some first ↦ segments_after token first
]

-- has("alg") and its text.
abbrev pub check_alg : JsonValue → Checked (Unit {0})
check_alg absent = reject "Unsupported token algorithm" "Only RS256 algorithm is permitted."
check_alg v = or_throw (as_text v) >>= λ a.
    ensure (str_eq a "RS256") "Unsupported token algorithm" "Only RS256 algorithm is permitted."

-- The key identifier of the header.
unfoldable pub header_kid : Primitives → List ℕ → Checked String
header_kid pr encoded_header = do
  raw ←
      given (base64_url_decode encoded_header) "Invalid token header"
        "Base64URL decoding failed for header."
  header ← given (pr.load raw) "Invalid token header syntax" "Header is not valid JSON."
  check_alg (header "alg")
  given (as_text (header "kid")) "Missing key identifier" "JWS header must contain 'kid'."

unfoldable pub check_signature : JwtService → String → Segments → Checked (Unit {0})
check_signature svc kid s = do
  pem ←
      given (get_verification_public_key_pem svc.key_manager kid) "Unknown signing key"
        (append "Key ID '" (append kid "' not recognized."))
  ensure (verify_rs256 svc.primitives pem (signing_input s.header s.payload) s.signature)
      "Invalid signature" "Cryptographic signature verification failed."
