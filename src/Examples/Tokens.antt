-- ===== src/Examples/Tokens.antt =====
-- Access tokens with a small JSON reader and a toy signature, and codes of OpenSslCrypto.
use cppbackend_api.Base.{
  ℕ, ◌%◌, ◌≡◌, refl, Option, none, some, List, [], ◌∷◌, arith, str_eq, if◌then◌else◌, bytes, length,
  same_bytes, pos,
}
use cppbackend_api.Crypto.{base64_url_encode, base64_url_decode}
use cppbackend_api.Jwt.{
  text, number, JsonObject, Fields, Primitives, JwtService, succeed, Segments, segments,
  segments_after, header_kid, check_signature, sign_rs256, verify_rs256,
}
use cppbackend_api.Jwt.Claims.{
  Grant, header_fields, payload_fields, validate_access_token, create_access_token, payload_object,
  check_claims, read_claims,
}
use cppbackend_api.Jwt.Reading.{Reads}
use cppbackend_api.Jwt.Soundness.{Accepted, validate_access_token_sound}
use cppbackend_api.Jwt.RoundTrip.{member, ReadsBack, IsKeyPair, granted, token_survives_rotations}
use cppbackend_api.Keys.{get_verification_public_key_pem}
use cppbackend_api.Keys.Rotation.{rotate_all}
use cppbackend_api.Examples.KeyRuns.{params, km, given, later}

abbrev grant : Grant
grant = record { user_id = "u1"; role = "user"; session_id = "s1"; jti = "j1"; ttl = 900 }

-- The payload of the grant, made at 1000.
abbrev payload : Fields
payload =
    ("iss", text "api")
    ∷ ("sub", text "u1")
    ∷ ("aud", text "app")
    ∷ ("iat", number (pos 1000))
    ∷ ("nbf", number (pos 1000))
    ∷ ("exp", number (pos 1900))
    ∷ ("jti", text "j1")
    ∷ ("sid", text "s1")
    ∷ ("role", text "user")
    ∷ []

-- Three JSON texts are known: the header of the active key, the payload, and a header whose "alg" is a
-- number.
abbrev load : List ℕ → Option JsonObject
load raw =
    if same_bytes raw (bytes "h")
    then some (λ key. member key (header_fields "now"))
    else if same_bytes raw (bytes "p")
    then some (λ key. member key payload)
    else if same_bytes raw (bytes "n")
    then some (λ key. member key (("alg", number (pos 1)) ∷ []))
    else none

abbrev dump : Fields → List ℕ
dump [] = []
dump ((name, value) ∷ fields) = if str_eq name "alg" then bytes "h" else bytes "p"

-- The signature is the length of the text.
abbrev pub primitives : Primitives
primitives = record {
  load = load;
  dump = dump;
  text_number = λ s. none;
  raw_sign = λ key m. some (length m % 256 ∷ []);
  raw_verify = λ key m signature. same_bytes signature (length m % 256 ∷ []);
}

abbrev jwt : JwtService
jwt = record { key_manager = km; issuer = "api"; audience = "app"; primitives = primitives }

abbrev token : List ℕ
token = bytes "aA.cA.BQ"

made : create_access_token jwt 1000 grant ≡ token
unfolding create_access_token sign_rs256 base64_url_encode
made = refl

accepted : validate_access_token jwt 1500 token ≡ succeed (granted jwt 1000 grant "now")
unfolding validate_access_token segments segments_after header_kid check_signature verify_rs256
    payload_object check_claims read_claims base64_url_decode get_verification_public_key_pem
accepted = refl

validate_access_token_sound_example : Accepted jwt 1500 token (granted jwt 1000 grant "now")
validate_access_token_sound_example =
    validate_access_token_sound jwt 1500 token (granted jwt 1000 grant "now") accepted

pair : IsKeyPair primitives "private" "public-now"
pair = record {
  signature = λ m. length m % 256 ∷ [];
  signs = λ m. refl;
  in_bytes = λ m. (omega arith, tt);
  accepts = λ m. ground arith;
}

header_back : ReadsBack primitives (header_fields "now")
header_back = record {
  object = λ key. member key (header_fields "now");
  loaded = refl;
  members = λ key. refl;
  in_bytes = omega arith;
}

payload_back : ReadsBack primitives (payload_fields jwt 1000 grant)
payload_back = record {
  object = λ key. member key payload;
  loaded = refl;
  members = λ key. refl;
  in_bytes = omega arith;
}

token_survives_rotations_example :
    validate_access_token
      (record jwt { key_manager = rotate_all params km (given "a" ∷ later) })
      1899
      (create_access_token jwt 1000 grant)
    ≡ succeed (granted jwt 1000 grant "now")
token_survives_rotations_example =
    token_survives_rotations params jwt grant 1000 1899 (given "a") later pair header_back
      payload_back (omega arith) refl refl (omega arith) (omega arith) (omega arith)

abbrev numeric : Segments
numeric = record { header = bytes "bg"; payload = []; signature = [] }

cut : segments (bytes "bg..") ≡ succeed numeric
unfolding segments segments_after
cut = refl

numeric_read : Reads primitives (bytes "bg") (λ key. member key (("alg", number (pos 1)) ∷ []))
unfolding base64_url_decode
numeric_read = (bytes "n", refl, refl)
