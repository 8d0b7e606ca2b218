-- ===== src/GoogleClient/Exchange.antt =====
-- The PKCE values, the authorization URL and the exchange of a code, of GoogleAuthService.cpp.
use cppbackend_api.Base.{
  ℕ, ◌+◌, ◌-◌, ◌%◌, ◌≡◌, refl, ap, true, none, some, List, [], ◌∷◌, ◌++◌, String, arith, bytes,
  if◌then◌else◌, ltb, ◌==◌, is_nil, map,
}
use cppbackend_api.Auth.{GoogleUserInfo}
use cppbackend_api.Crypto.{base64_url_encode}
use cppbackend_api.Jwt.{JsonObject, Checked, ◌>>=◌, or_throw, as_text, has}
use cppbackend_api.GoogleClient.{GoogleClient, refuse, url_encode, is_unreserved, verify_id_token}

-- charset[d] for a `d` below 66.
abbrev pub verifier_char : ℕ → ℕ
verifier_char d =
    if ltb d 26
    then b'A' + d
    else if ltb d 52
    then b'a' + (d - 26)
    else if ltb d 62
    then b'0' + (d - 52)
    else if d == 62
    then b'-'
    else if d == 63
    then b'.'
    else if d == 64
    then b'_'
    else b'~'

-- `random` are the 64 bytes drawn.
unfoldable pub generate_code_verifier : List ℕ → List ℕ
generate_code_verifier random = map (λ b. verifier_char (b % 66)) random

unfoldable pub generate_code_challenge : (List ℕ → List ℕ) → List ℕ → List ℕ
generate_code_challenge sha256_raw verifier = base64_url_encode (sha256_raw verifier)

-- `&name=value`, left out where the value is empty.
abbrev pub optional_part : String → List ℕ → List ℕ → List ℕ
optional_part name value rest =
    if is_nil value then [] else bytes name ++ (url_encode value ++ rest)

unfoldable pub get_authorization_url : GoogleClient → List ℕ → List ℕ → List ℕ
get_authorization_url svc state challenge =
    bytes "https://accounts.google.com/o/oauth2/v2/auth?client_id="
    ++ (url_encode (bytes svc.client_id)
        ++ (bytes "&redirect_uri="
            ++ (url_encode (bytes svc.redirect_uri)
                ++ (bytes "&response_type=code&scope="
                    ++ (url_encode (bytes "openid email profile")
                        ++ (bytes "&access_type=offline&prompt=consent"
                            ++ (optional_part "&state=" state []
                                ++ optional_part "&code_challenge=" challenge
                                    (bytes "&code_challenge_method=S256"))))))))

abbrev pub token_request : GoogleClient → List ℕ → List ℕ → List ℕ
token_request svc code verifier =
    bytes "code="
    ++ (url_encode code
        ++ (bytes "&client_id="
            ++ (url_encode (bytes svc.client_id)
                ++ (bytes "&client_secret="
                    ++ (url_encode (bytes svc.client_secret)
                        ++ (bytes "&redirect_uri="
                            ++ (url_encode (bytes svc.redirect_uri)
                                ++ (bytes "&grant_type=authorization_code"
                                    ++ optional_part "&code_verifier=" verifier []))))))))

abbrev pub rejected : String → Checked GoogleUserInfo
rejected description = refuse 401 "Token exchange rejected" description

-- The answer without an id_token.
abbrev pub rejection : JsonObject → Checked GoogleUserInfo
rejection json =
    if has (json "error_description")
    then or_throw (as_text (json "error_description")) >>= rejected
    else rejected "Invalid authorization code"

abbrev pub verify_exchanged : GoogleClient → ℕ → JsonObject → Checked GoogleUserInfo
verify_exchanged svc now json =
    if has (json "id_token")
    then or_throw (as_text (json "id_token")) >>= (λ token. verify_id_token svc now (bytes token))
    else rejection json

abbrev pub read_exchange : GoogleClient → ℕ → List ℕ → Checked GoogleUserInfo
read_exchange svc now response =
    if is_nil response
    then refuse 502 "Google token exchange failed" "Unable to reach Google OAuth token endpoint."
    else elim (svc.primitives.load response) [
      | none ↦ rejected "Invalid authorization code"
      | some json ↦ verify_exchanged svc now json
    ]

unfoldable pub exchange_auth_code : GoogleClient → ℕ → List ℕ → List ℕ → Checked GoogleUserInfo
exchange_auth_code svc now code verifier =
    if is_nil code
    then refuse 400 "Empty auth code" "Authorization code is required."
    else read_exchange svc now (svc.https_post (token_request svc code verifier))

verifier_char-unreserved : (b : ℕ) → is_unreserved (verifier_char (b % 66)) ≡ true
verifier_char-unreserved b = ground arith

-- A verifier goes into a URL as it is.
url_encode-generate_code_verifier :
    (random : List ℕ) → url_encode (generate_code_verifier random) ≡ generate_code_verifier random
unfolding url_encode generate_code_verifier
url_encode-generate_code_verifier [] = refl
url_encode-generate_code_verifier (b ∷ bs) =
    rw (verifier_char-unreserved b)
      (ap (λ (cs : List ℕ). verifier_char (b % 66) ∷ cs) (url_encode-generate_code_verifier bs))
