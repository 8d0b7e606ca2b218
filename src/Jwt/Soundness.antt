-- ===== src/Jwt/Soundness.antt =====
-- What a token that is accepted has: a signature by a known key, and claims that hold at the time.
use cppbackend_api.Base.{
  ◌≤◌, ◌<◌, ltb→lt, negsuc, ℕ, ◌≡◌, sym, ap, ◌∙◌, true, false, none, some, List, String, arith, pos,
  ℤ,
}
use cppbackend_api.Access.{JwtClaims}
use cppbackend_api.Crypto.{base64_url_decode}
use cppbackend_api.Keys.{get_verification_public_key_pem}
use cppbackend_api.Jwt.{
  text, JsonObject, Primitives, JwtService, succeed, as_text, as_number, has, signing_input,
  Segments, segments, header_kid, check_signature,
}
use cppbackend_api.Jwt.Claims.{
  before, too_early, payload_object, check_claims, validate_access_token,
}
use cppbackend_api.Jwt.Signed.{>>=-succeeds, Splits, segments-Splits}
use cppbackend_api.Jwt.Reading.{
  Reads, header_kid_sound, check_signature_sound, payload_object_sound, NumberRead, TextRead,
  same_start, check_claims-Checks, read_claims-Read, text-injective,
}

-- An instant of the future, and one that is not.
abbrev pub IsLater : ℕ → ℤ → Type 0
IsLater now (pos n) = now < n
IsLater now (negsuc n) = ⊥

abbrev pub HasCome : ℕ → ℤ → Type 0
HasCome now (pos n) = n ≤ now
HasCome now (negsuc n) = Unit

after_checked : (now : ℕ) (z : ℤ) → before now z ≡ true → IsLater now z
after_checked now (pos n) h = ltb→lt now n h
after_checked now (negsuc n) h = cc

begun_checked : (now : ℕ) (z : ℤ) → too_early now z ≡ false → HasCome now z
begun_checked now (pos n) h = ground arith
begun_checked now (negsuc n) h = tt

-- What an accepted token is: three segments, the first a JSON object that names RS256 and the key,
-- the third a signature of the other two by that key, which is the active one or an earlier one;
-- and a payload with the service's issuer and audience, from which the user, the session, the token
-- id, the role ("user" where there is none), the expiry, the start and the instant of issue (0 where
-- there is none) are taken, at a time before the expiry and not before the start.
pub record Accepted (svc : JwtService) (now : ℕ) (token : List ℕ) (claims : JwtClaims)
    : Type 0 where
  pub parts : Segments
  pub splits : Splits token parts
  pub header : JsonObject
  pub header_read : Reads svc.primitives parts.header header
  pub algorithm : header "alg" ≡ text "RS256"
  pub key_named : header "kid" ≡ text claims.kid
  pub pem : String
  pub key_known : get_verification_public_key_pem svc.key_manager claims.kid ≡ some pem
  pub raw_signature : List ℕ
  pub signature_read : base64_url_decode parts.signature ≡ some raw_signature
  pub verified :
      svc.primitives.raw_verify pem (signing_input parts.header parts.payload) raw_signature ≡ true
  pub payload : JsonObject
  pub payload_read : Reads svc.primitives parts.payload payload
  pub issued : (payload "iss" ≡ text svc.issuer) × (claims.iss ≡ svc.issuer)
  pub addressed : (payload "aud" ≡ text svc.audience) × (claims.aud ≡ svc.audience)
  pub subject : payload "sub" ≡ text claims.sub
  pub session : payload "sid" ≡ text claims.sid
  pub token_id : payload "jti" ≡ text claims.jti
  pub role_read : TextRead (payload "role") "user" claims.role
  pub issued_at : NumberRead svc.primitives (payload "iat") (pos 0) claims.iat
  pub start_read : NumberRead svc.primitives (payload "nbf") (pos 0) claims.nbf
  pub expires : as_number svc.primitives (payload "exp") ≡ some claims.exp
  pub fresh : IsLater now claims.exp
  pub started : HasCome now claims.nbf

-- A token that is accepted is signed by a known key, names RS256, is issued by and addressed to this
-- service, is in its period of validity, and its claims are those of the signed payload (with "user"
-- for a missing role, and 0 for a missing instant of issue or start).
pub validate_access_token_sound :
    (svc : JwtService) (now : ℕ) (token : List ℕ) (claims : JwtClaims)
    → validate_access_token svc now token ≡ succeed claims
    → Accepted svc now token claims
unfolding validate_access_token
validate_access_token_sound svc now token claims h =
    let pr = svc.primitives in
    let (s, split, h1) = >>=-succeeds (segments token) _ h in
    let (kid, named, h2) = >>=-succeeds (header_kid pr s.header) _ h1 in
    let (u, signed, h3) = >>=-succeeds (check_signature svc kid s) _ h2 in
    let (payload, loaded, h4) = >>=-succeeds (payload_object pr s.payload) _ h3 in
    let (times, checked, h5) = >>=-succeeds (check_claims svc now payload) _ h4 in
    let (header, header_read, alg, key_named) = header_kid_sound pr s.header kid named in
    let (pem, known, raw, decoded, verified) = check_signature_sound svc kid s signed in
    let c = check_claims-Checks svc now payload times checked in
    let r = read_claims-Read pr kid payload times claims h5 in
    record {
      parts = s;
      splits = segments-Splits token s split;
      header = header;
      header_read = header_read;
      algorithm = alg;
      key_named = key_named ∙ ap text (sym r.same_kid);
      pem = pem;
      key_known = ap (get_verification_public_key_pem svc.key_manager) r.same_kid ∙ known;
      raw_signature = raw;
      signature_read = decoded;
      verified = verified;
      payload = payload;
      payload_read = payload_object_sound pr s.payload payload loaded;
      issued = (c.issued, text-injective (sym r.issuer_read ∙ c.issued));
      addressed = (c.addressed, text-injective (sym r.audience_read ∙ c.addressed));
      subject = r.subject;
      session = r.session;
      token_id = r.token_id;
      role_read = r.role_read;
      issued_at = r.issued_read;
      start_read = same_start pr (payload "nbf") c.start_read r.same_nbf;
      expires = c.expires ∙ ap some (sym r.same_exp);
      fresh = after_checked now claims.exp (ap (before now) r.same_exp ∙ c.fresh);
      started = begun_checked now claims.nbf (ap (too_early now) r.same_nbf ∙ c.started);
    }

header_kid-throws :
    (pr : Primitives) (encoded : List ℕ) (header : JsonObject)
    → Reads pr encoded header
    → has (header "alg") ≡ true
    → as_text (header "alg") ≡ none
    → header_kid pr encoded ≡ none
unfolding header_kid
header_kid-throws pr encoded header (raw, decoded, loaded) present no_text = ground arith

-- A token of three segments whose header is a JSON object with an "alg" that is no text is answered
-- by an exception, not by a refusal, whatever its payload and signature are.
pub validate_access_token-throws :
    (svc : JwtService) (now : ℕ) (token : List ℕ) (s : Segments) (header : JsonObject)
    → segments token ≡ succeed s
    → Reads svc.primitives s.header header
    → has (header "alg") ≡ true
    → as_text (header "alg") ≡ none
    → validate_access_token svc now token ≡ none
unfolding validate_access_token
validate_access_token-throws svc now token s header split reads present no_text =
    let thrown = header_kid-throws svc.primitives s.header header reads present no_text in
    ground (arith, split)
