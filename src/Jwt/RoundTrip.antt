-- ===== src/Jwt/RoundTrip.antt =====
-- Tokens that the service made are accepted, by itself and after rotations of its key.
use cppbackend_api.Base.{
  ℕ, ◌+◌, ◌≤◌, ◌<◌, ◌≡◌, ap, ◌∙◌, true, false, some, List, [], ◌∷◌, ◌++◌, String, arith, str_eq,
  eq_refl, if◌then◌else◌, All, pos, ℤ, free_of, length, any,
}
use cppbackend_api.Access.{JwtClaims}
use cppbackend_api.Crypto.{base64_url_encode, base64_url_decode}
use cppbackend_api.Crypto.Hex.{IsByte}
use cppbackend_api.Crypto.Base64.{
  base64_url_decode-encode, base64_url_encode-IsTokenChar, free_of_dot,
}
use cppbackend_api.Keys.{KeyManager, NewKey, has_kid, get_verification_public_key_pem}
use cppbackend_api.Keys.Rotation.{rotate_all, new_kids, active_key_survives}
use cppbackend_api.Jwt.{
  JsonValue, absent, text, number, JsonObject, Fields, Primitives, JwtService, succeed, sign_rs256,
  verify_rs256, signing_input, Segments, segments, header_kid, check_signature,
}
use cppbackend_api.Jwt.Claims.{
  payload_object, check_claims, read_claims, validate_access_token, Grant, header_fields,
  payload_fields, create_access_token,
}
use cppbackend_api.Jwt.Signed.{cut_segments, append_assoc}

-- The member of a list of fields.
abbrev pub member : String → Fields → JsonValue
member key [] = absent
member key ((name, value) ∷ fields) = if str_eq name key then value else member key fields

-- crow::json::load reads back what dump wrote, in bytes.
pub record ReadsBack (pr : Primitives) (fields : Fields) : Type 0 where
  pub object : JsonObject
  pub loaded : pr.load (pr.dump fields) ≡ some object
  pub members : (key : String) → object key ≡ member key fields
  pub in_bytes : All IsByte (pr.dump fields)

-- A private key signs every text, and the public key accepts the signature.
pub record IsKeyPair (pr : Primitives) (private public : String) : Type 0 where
  pub signature : List ℕ → List ℕ
  pub signs : (m : List ℕ) → pr.raw_sign private m ≡ some (signature m)
  pub in_bytes : (m : List ℕ) → All IsByte (signature m)
  pub accepts : (m : List ℕ) → pr.raw_verify public m (signature m) ≡ true

header_kid_complete :
    (pr : Primitives) (raw : List ℕ) (encoded : List ℕ) (header : JsonObject) (kid : String)
    → base64_url_decode encoded ≡ some raw
    → pr.load raw ≡ some header
    → header "alg" ≡ text "RS256"
    → header "kid" ≡ text kid
    → header_kid pr encoded ≡ succeed kid
unfolding header_kid
header_kid_complete pr raw encoded header kid decoded loaded alg named =
    ground (arith, eq_refl "RS256")

payload_object_complete :
    (pr : Primitives) (raw : List ℕ) (encoded : List ℕ) (payload : JsonObject)
    → base64_url_decode encoded ≡ some raw
    → pr.load raw ≡ some payload
    → payload_object pr encoded ≡ succeed payload
unfolding payload_object
payload_object_complete pr raw encoded payload decoded loaded = ground arith

check_signature_complete :
    (svc : JwtService) (kid pem : String) (s : Segments)
    → get_verification_public_key_pem svc.key_manager kid ≡ some pem
    → verify_rs256 svc.primitives pem (signing_input s.header s.payload) s.signature ≡ true
    → check_signature svc kid s ≡ succeed tt
unfolding check_signature
check_signature_complete svc kid pem s known verified = ground arith

-- The claims that the grant stands for.
abbrev pub granted : JwtService → ℕ → Grant → String → JwtClaims
granted svc now g kid = record {
  iss = svc.issuer;
  sub = g.user_id;
  aud = svc.audience;
  iat = pos now;
  nbf = pos now;
  exp = pos (now + g.ttl);
  jti = g.jti;
  sid = g.session_id;
  role = g.role;
  kid = kid;
}

-- The payload of a grant that was made at `now`.
module _ (svc : JwtService) (now : ℕ) (g : Grant) (payload : JsonObject)
    (members : (key : String) → payload key ≡ member key (payload_fields svc now g)) where
  check_claims_complete :
      (km : KeyManager) (later : ℕ)
      → now ≤ later
      → later < now + g.ttl
      → check_claims (record svc { key_manager = km }) later payload
        ≡ succeed (pos (now + g.ttl), pos now)
  unfolding check_claims
  check_claims_complete km later from until =
      let iss : payload "iss" ≡ text svc.issuer = members "iss" in
      let sub : payload "sub" ≡ text g.user_id = members "sub" in
      let aud : payload "aud" ≡ text svc.audience = members "aud" in
      let exp : payload "exp" ≡ number (pos (now + g.ttl)) = members "exp" in
      let nbf : payload "nbf" ≡ number (pos now) = members "nbf" in
      let jti : payload "jti" ≡ text g.jti = members "jti" in
      let sid : payload "sid" ≡ text g.session_id = members "sid" in
      ground (arith, eq_refl svc.issuer, eq_refl svc.audience)

  read_claims_complete :
      (kid : String)
      → read_claims svc.primitives kid payload (pos (now + g.ttl), pos now)
        ≡ succeed (granted svc now g kid)
  unfolding read_claims
  read_claims_complete kid =
      let iss : payload "iss" ≡ text svc.issuer = members "iss" in
      let sub : payload "sub" ≡ text g.user_id = members "sub" in
      let aud : payload "aud" ≡ text svc.audience = members "aud" in
      let iat : payload "iat" ≡ number (pos now) = members "iat" in
      let jti : payload "jti" ≡ text g.jti = members "jti" in
      let sid : payload "sid" ≡ text g.session_id = members "sid" in
      let role : payload "role" ≡ text g.role = members "role" in ground arith

sign_rs256-pair :
    (pr : Primitives) (private public : String) (k : IsKeyPair pr private public) (m : List ℕ)
    → sign_rs256 pr private m ≡ some (base64_url_encode (k.signature m))
unfolding sign_rs256
sign_rs256-pair pr private public k m = rw (k.signs m)

verify_rs256-pair :
    (pr : Primitives) (private public : String) (k : IsKeyPair pr private public) (m : List ℕ)
    → verify_rs256 pr public m (base64_url_encode (k.signature m)) ≡ true
unfolding verify_rs256
verify_rs256-pair pr private public k m =
    rw (base64_url_decode-encode (k.signature m) (k.in_bytes m), verify_rs256) (k.accepts m)

pub encoded_free : (bs : List ℕ) → free_of b'.' (base64_url_encode bs) ≡ true
encoded_free bs = free_of_dot (base64_url_encode bs) (base64_url_encode-IsTokenChar bs)

-- The validation of a token whose parts are known to pass.
validate_parts :
    (svc : JwtService) (now : ℕ) (token : List ℕ) (s : Segments) (kid : String)
    (payload : JsonObject) (times : ℤ × ℤ) (claims : JwtClaims)
    → segments token ≡ succeed s
    → header_kid svc.primitives s.header ≡ succeed kid
    → check_signature svc kid s ≡ succeed tt
    → payload_object svc.primitives s.payload ≡ succeed payload
    → check_claims svc now payload ≡ succeed times
    → read_claims svc.primitives kid payload times ≡ succeed claims
    → validate_access_token svc now token ≡ succeed claims
unfolding validate_access_token
validate_parts svc now token s kid payload times claims a b c d e f = ground arith

module _ (svc : JwtService) (g : Grant) (now : ℕ)
    (pair : IsKeyPair svc.primitives svc.key_manager.active_key.private_key_pem
      svc.key_manager.active_key.public_key_pem)
    (header_back : ReadsBack svc.primitives (header_fields svc.key_manager.active_key.kid))
    (payload_back : ReadsBack svc.primitives (payload_fields svc now g)) where
  abbrev made_header : List ℕ
  made_header =
      base64_url_encode (svc.primitives.dump (header_fields svc.key_manager.active_key.kid))

  abbrev made_payload : List ℕ
  made_payload = base64_url_encode (svc.primitives.dump (payload_fields svc now g))

  abbrev made_signature : List ℕ
  made_signature = base64_url_encode (pair.signature (signing_input made_header made_payload))

  made_token :
      create_access_token svc now g
      ≡ made_header ++ (b'.' ∷ (made_payload ++ (b'.' ∷ made_signature)))
  unfolding create_access_token
  made_token =
      let pr = svc.primitives in
      let key = svc.key_manager.active_key in
      rw
        (sign_rs256-pair pr key.private_key_pem key.public_key_pem pair
          (signing_input made_header made_payload))
        (append_assoc made_header (b'.' ∷ made_payload) (b'.' ∷ made_signature))

  -- A token that the service made is accepted from its instant until its time to live is over, by
  -- every service with the same names that still knows the key, and its claims are those that it
  -- was made for.
  pub validate_access_token-create :
      (km : KeyManager) (later : ℕ)
      → get_verification_public_key_pem km svc.key_manager.active_key.kid
        ≡ some svc.key_manager.active_key.public_key_pem
      → now ≤ later
      → later < now + g.ttl
      → validate_access_token
          (record svc { key_manager = km })
          later
          (create_access_token svc now g)
        ≡ succeed (granted svc now g svc.key_manager.active_key.kid)
  validate_access_token-create km later known from until =
      let pr = svc.primitives in
      let kid = svc.key_manager.active_key.kid in
      let other_svc : JwtService = record svc { key_manager = km } in
      let s : Segments = record {
        header = made_header;
        payload = made_payload;
        signature = made_signature;
      } in
      let input = signing_input made_header made_payload in
      ap (validate_access_token other_svc later) made_token
      ∙ validate_parts other_svc later _ s kid payload_back.object (pos (now + g.ttl), pos now)
          (granted svc now g kid)
          (cut_segments made_header made_payload made_signature (encoded_free _) (encoded_free _)
            (encoded_free _))
          (header_kid_complete pr _ made_header header_back.object kid
            (base64_url_decode-encode _ header_back.in_bytes) header_back.loaded
            (header_back.members "alg") (header_back.members "kid"))
          (check_signature_complete other_svc kid svc.key_manager.active_key.public_key_pem s known
            (verify_rs256-pair pr svc.key_manager.active_key.private_key_pem
              svc.key_manager.active_key.public_key_pem pair input))
          (payload_object_complete pr _ made_payload payload_back.object
            (base64_url_decode-encode _ payload_back.in_bytes) payload_back.loaded)
          (check_claims_complete svc now g payload_back.object payload_back.members km later from
            until)
          (read_claims_complete svc now g payload_back.object payload_back.members kid)

-- A token that the service made stays valid through one to five rotations of its key: until its
-- time to live is over the service accepts it, with the claims that it was made for. The manager
-- held at most five earlier keys, none with the active key's kid, and no rotation reuses that kid.
pub token_survives_rotations :
    (extract_params : String → String × String) (svc : JwtService) (g : Grant) (now later : ℕ)
    (given : NewKey) (rest : List NewKey)
    → IsKeyPair svc.primitives svc.key_manager.active_key.private_key_pem
        svc.key_manager.active_key.public_key_pem
    → ReadsBack svc.primitives (header_fields svc.key_manager.active_key.kid)
    → ReadsBack svc.primitives (payload_fields svc now g)
    → length svc.key_manager.previous_keys ≤ 5
    → any (has_kid svc.key_manager.active_key.kid) svc.key_manager.previous_keys ≡ false
    → new_kids svc.key_manager.active_key.kid (given ∷ rest) ≡ true
    → length rest ≤ 4
    → now ≤ later
    → later < now + g.ttl
    → validate_access_token
        (record svc { key_manager = rotate_all extract_params svc.key_manager (given ∷ rest) })
        later
        (create_access_token svc now g)
      ≡ succeed (granted svc now g svc.key_manager.active_key.kid)
token_survives_rotations extract_params svc g now later given rest pair header_back payload_back few
      unused fresh enough from until =
    validate_access_token-create svc g now pair header_back payload_back
      (rotate_all extract_params svc.key_manager (given ∷ rest)) later
      (active_key_survives extract_params svc.key_manager given rest few unused fresh enough).0 from
      until
