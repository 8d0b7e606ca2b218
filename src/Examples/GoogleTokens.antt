-- ===== src/Examples/GoogleTokens.antt =====
-- Tokens of Google, with a reader that knows two JSON texts.
use cppbackend_api.Base.{
  ℕ, ◌≡◌, refl, Option, none, some, List, [], ◌∷◌, if◌then◌else◌, bytes, same_bytes, pos, true,
  arith,
}
use cppbackend_api.Auth.{GoogleUserInfo}
use cppbackend_api.Crypto.{base64_url_encode}
use cppbackend_api.Jwt.{text, number, boolean, JsonObject, succeed}
use cppbackend_api.Jwt.RoundTrip.{member}
use cppbackend_api.Jwt.Signed.{token_of}
use cppbackend_api.GoogleClient.{
  GoogleClient, verify_id_token, parse_and_validate_token_claims, validate_claims, read_profile,
}
use cppbackend_api.GoogleClient.Unsigned.{verify_id_token-unsigned}
use cppbackend_api.GoogleClient.Soundness.{Vouched, parse_and_validate_token_claims_sound}
use cppbackend_api.Examples.Tokens.{primitives}

-- The claims "c", and Google's answer "e" to a token that it has not issued.
abbrev load : List ℕ → Option JsonObject
load raw =
    if same_bytes raw (bytes "c")
    then some (λ key. member key (
        ("sub", text "g1")
        ∷ ("email", text "root@b.co")
        ∷ ("email_verified", boolean true)
        ∷ ("exp", number (pos 2000))
        ∷ []))
    else if same_bytes raw (bytes "e")
    then some (λ key. member key (("error", text "invalid_token") ∷ []))
    else none

abbrev client : GoogleClient
client = record {
  client_id = "app";
  client_secret = "s";
  redirect_uri = "r";
  primitives = record primitives { load = load };
  https_get = λ token. bytes "e";
  https_post = λ body. [];
}

verify_id_token-unsigned_example :
    verify_id_token client 1000 (token_of (bytes "h") (base64_url_encode (bytes "c")) (bytes "any"))
    ≡ parse_and_validate_token_claims client 1000 (bytes "c")
unfolding base64_url_encode
verify_id_token-unsigned_example =
    verify_id_token-unsigned client 1000 (bytes "h") (bytes "any") (bytes "c") refl refl
      (omega arith, tt) refl

abbrev someone : GoogleUserInfo
someone = record { google_id = "g1"; email = "root@b.co"; picture = "" }

claims_read : parse_and_validate_token_claims client 1000 (bytes "c") ≡ succeed someone
unfolding parse_and_validate_token_claims validate_claims read_profile
claims_read = refl

parse_and_validate_token_claims_sound_example :
    (json : JsonObject) × (load (bytes "c") ≡ some json) × Vouched client 1000 json someone
parse_and_validate_token_claims_sound_example =
    parse_and_validate_token_claims_sound client 1000 (bytes "c") someone claims_read
