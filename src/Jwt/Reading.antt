-- ===== src/Jwt/Reading.antt =====
-- What the steps of the validation establish, one by one.
use cppbackend_api.Base.{
  ◌⊎◌, inl, inr, Option-cases, ℕ, ◌≡◌, refl, sym, ap, ◌∙◌, Bool, true, false, not, some, List,
  String, arith, str_eq, eq_iff, pos, ℤ,
}
use cppbackend_api.Access.{JwtClaims}
use cppbackend_api.Crypto.{base64_url_decode}
use cppbackend_api.Keys.{get_verification_public_key_pem}
use cppbackend_api.Jwt.{
  JsonValue, absent, text, number, boolean, other, JsonObject, Primitives, JwtService, succeed,
  ensure, given, or_throw, as_text, as_number, check_alg, verify_rs256, signing_input, Segments,
  header_kid, check_signature,
}
use cppbackend_api.Jwt.Claims.{
  before, too_early, payload_object, check_claims, read_claims, number_or, text_or, has_mandatory,
}
use cppbackend_api.Jwt.Signed.{>>=-succeeds, ensure-succeeds, given-succeeds, or_throw-succeeds}

pub text_of_as_text : (v : JsonValue) {s : String} → as_text v ≡ some s → v ≡ text s
text_of_as_text absent h = cc
text_of_as_text (text t) h = cc
text_of_as_text (number z) h = cc
text_of_as_text (boolean b) h = cc
text_of_as_text other h = cc

-- A segment that decodes to a JSON object.
abbrev pub Reads : Primitives → List ℕ → JsonObject → Type 0
Reads pr encoded object =
    (raw : List ℕ) × (base64_url_decode encoded ≡ some raw) × (pr.load raw ≡ some object)

alg_is : (v : JsonValue) {u : Unit {0}} → check_alg v ≡ succeed u → v ≡ text "RS256"
alg_is absent h = cc
alg_is (text t) h = ap text ((eq_iff t "RS256").0 (ensure-succeeds (str_eq t "RS256") _ _ h))
alg_is (number z) h = cc
alg_is (boolean b) h = cc
alg_is other h = cc

pub header_kid_sound :
    (pr : Primitives) (encoded : List ℕ) (kid : String)
    → header_kid pr encoded ≡ succeed kid
    → (header : JsonObject) × Reads pr encoded header
      × (header "alg" ≡ text "RS256")
      × (header "kid" ≡ text kid)
unfolding header_kid
header_kid_sound pr encoded kid h =
    let (raw, decoded, h1) = >>=-succeeds (given (base64_url_decode encoded) _ _) _ h in
    let (header, loaded, h2) = >>=-succeeds (given (pr.load raw) _ _) _ h1 in
    let (u, alg, h3) = >>=-succeeds (check_alg (header "alg")) _ h2 in
    (
      header,
      (raw, given-succeeds _ _ _ decoded, given-succeeds _ _ _ loaded),
      alg_is (header "alg") alg,
      text_of_as_text (header "kid") (given-succeeds _ _ _ h3),
    )

verify_rs256-raw :
    (pr : Primitives) (pem : String) (message signature : List ℕ)
    → verify_rs256 pr pem message signature ≡ true
    → (raw : List ℕ) × (base64_url_decode signature ≡ some raw)
      × (pr.raw_verify pem message raw ≡ true)
unfolding verify_rs256
verify_rs256-raw pr pem message signature h = elim (Option-cases (base64_url_decode signature)) [
  | inl e ↦ absurd (ground arith)
  | inr (raw, e) ↦ (raw, e, ground arith)
]

pub check_signature_sound :
    (svc : JwtService) (kid : String) (s : Segments) {u : Unit {0}}
    → check_signature svc kid s ≡ succeed u
    → (pem : String) × (get_verification_public_key_pem svc.key_manager kid ≡ some pem)
      × (raw : List ℕ) × (base64_url_decode s.signature ≡ some raw)
      × (svc.primitives.raw_verify pem (signing_input s.header s.payload) raw ≡ true)
unfolding check_signature
check_signature_sound svc kid s h =
    let (pem, known, h1) =
      >>=-succeeds (given (get_verification_public_key_pem svc.key_manager kid) _ _) _ h in
    let (raw, decoded, verified) =
      verify_rs256-raw svc.primitives pem (signing_input s.header s.payload) s.signature
        (ensure-succeeds _ _ _ h1) in
    (pem, given-succeeds _ _ _ known, raw, decoded, verified)

pub payload_object_sound :
    (pr : Primitives) (encoded : List ℕ) (payload : JsonObject)
    → payload_object pr encoded ≡ succeed payload
    → Reads pr encoded payload
unfolding payload_object
payload_object_sound pr encoded payload h =
    let (raw, decoded, h1) = >>=-succeeds (given (base64_url_decode encoded) _ _) _ h in
    (raw, given-succeeds _ _ _ decoded, given-succeeds _ _ _ h1)

not-true : (b : Bool) → not b ≡ true → b ≡ false
not-true true h = cc
not-true false h = refl

succeed-injective : {A : Type 0} (a b : A) → succeed a ≡ succeed b → a ≡ b
succeed-injective a b h = cc

-- A number that may be missing, and then counts as `otherwise`; a text that may be.
abbrev pub NumberRead : Primitives → JsonValue → ℤ → ℤ → Type 0
NumberRead pr v otherwise z = ((v ≡ absent) × (z ≡ otherwise)) ⊎ (as_number pr v ≡ some z)

abbrev pub TextRead : JsonValue → String → String → Type 0
TextRead v otherwise s = ((v ≡ absent) × (s ≡ otherwise)) ⊎ (v ≡ text s)

number_or_read :
    (pr : Primitives) (v : JsonValue) (otherwise z z' : ℤ)
    → number_or pr v otherwise ≡ succeed z
    → z ≡ z'
    → NumberRead pr v otherwise z'
number_or_read pr absent otherwise z z' h e =
    inl (refl, sym e ∙ sym (succeed-injective otherwise z h))
number_or_read pr (text s) otherwise z z' h e =
    inr (or_throw-succeeds (as_number pr (text s)) h ∙ ap some e)
number_or_read pr (number n) otherwise z z' h e =
    inr (or_throw-succeeds (as_number pr (number n)) h ∙ ap some e)
number_or_read pr (boolean b) otherwise z z' h e = cc
number_or_read pr other otherwise z z' h e = cc

text_or_read :
    (v : JsonValue) (otherwise s s' : String)
    → text_or v otherwise ≡ succeed s
    → s ≡ s'
    → TextRead v otherwise s'
text_or_read absent otherwise s s' h e = inl (refl, sym e ∙ sym (succeed-injective otherwise s h))
text_or_read (text t) otherwise s s' h e = inr (ap text (succeed-injective t s h ∙ e))
text_or_read (number n) otherwise s s' h e = cc
text_or_read (boolean b) otherwise s s' h e = cc
text_or_read other otherwise s s' h e = cc

pub same_start :
    (pr : Primitives) (v : JsonValue) {z z' : ℤ}
    → NumberRead pr v (pos 0) z
    → z' ≡ z
    → NumberRead pr v (pos 0) z'
same_start pr v (inl (missing, e)) same = inl (missing, same ∙ e)
same_start pr v (inr e) same = inr (e ∙ ap some (sym same))

-- The claims that were checked: the issuer, the audience and the two instants.
pub record Checks (svc : JwtService) (now : ℕ) (payload : JsonObject) (times : ℤ × ℤ) : Type 0 where
  pub issued : payload "iss" ≡ text svc.issuer
  pub addressed : payload "aud" ≡ text svc.audience
  pub expires : as_number svc.primitives (payload "exp") ≡ some times.0
  pub fresh : before now times.0 ≡ true
  pub started : too_early now times.1 ≡ false
  pub start_read : NumberRead svc.primitives (payload "nbf") (pos 0) times.1

pub check_claims-Checks :
    (svc : JwtService) (now : ℕ) (payload : JsonObject) (times : ℤ × ℤ)
    → check_claims svc now payload ≡ succeed times
    → Checks svc now payload times
unfolding check_claims
check_claims-Checks svc now payload times h =
    let pr = svc.primitives in
    let (u, present, h1) = >>=-succeeds (ensure (has_mandatory payload) _ _) _ h in
    let (iss, iss_read, h2) = >>=-succeeds (or_throw (as_text (payload "iss"))) _ h1 in
    let (u2, iss_same, h3) = >>=-succeeds (ensure (str_eq iss svc.issuer) _ _) _ h2 in
    let (aud, aud_read, h4) = >>=-succeeds (or_throw (as_text (payload "aud"))) _ h3 in
    let (u3, aud_same, h5) = >>=-succeeds (ensure (str_eq aud svc.audience) _ _) _ h4 in
    let (exp, exp_read, h6) = >>=-succeeds (or_throw (as_number pr (payload "exp"))) _ h5 in
    let (u4, live, h7) = >>=-succeeds (ensure (before now exp) _ _) _ h6 in
    let (nbf, nbf_read, h8) = >>=-succeeds (number_or pr (payload "nbf") (pos 0)) _ h7 in
    let (u5, begun, h9) = >>=-succeeds (ensure (not (too_early now nbf)) _ _) _ h8 in
    let e = succeed-injective _ times h9 in
    let same_exp : exp ≡ times.0 = ap (λ (t : ℤ × ℤ). t.0) e in
    let same_nbf : nbf ≡ times.1 = ap (λ (t : ℤ × ℤ). t.1) e in
    record {
      issued =
          text_of_as_text (payload "iss") (or_throw-succeeds _ iss_read)
          ∙ ap text ((eq_iff iss svc.issuer).0 (ensure-succeeds _ _ _ iss_same));
      addressed =
          text_of_as_text (payload "aud") (or_throw-succeeds _ aud_read)
          ∙ ap text ((eq_iff aud svc.audience).0 (ensure-succeeds _ _ _ aud_same));
      expires = or_throw-succeeds _ exp_read ∙ ap some same_exp;
      fresh = sym (ap (before now) same_exp) ∙ ensure-succeeds _ _ _ live;
      started =
          not-true (too_early now times.1)
            (sym (ap (λ (z : ℤ). not (too_early now z)) same_nbf) ∙ ensure-succeeds _ _ _ begun);
      start_read = number_or_read pr (payload "nbf") (pos 0) nbf times.1 nbf_read same_nbf;
    }

-- The claims that were read.
pub record Read (pr : Primitives) (kid : String) (payload : JsonObject) (times : ℤ × ℤ)
    (claims : JwtClaims) : Type 0 where
  pub subject : payload "sub" ≡ text claims.sub
  pub token_id : payload "jti" ≡ text claims.jti
  pub session : payload "sid" ≡ text claims.sid
  pub role_read : TextRead (payload "role") "user" claims.role
  pub issued_read : NumberRead pr (payload "iat") (pos 0) claims.iat
  pub issuer_read : payload "iss" ≡ text claims.iss
  pub audience_read : payload "aud" ≡ text claims.aud
  pub same_kid : claims.kid ≡ kid
  pub same_exp : claims.exp ≡ times.0
  pub same_nbf : claims.nbf ≡ times.1

reads_as : (v : JsonValue) {a b : String} → or_throw (as_text v) ≡ succeed a → a ≡ b → v ≡ text b
reads_as v h e = text_of_as_text v (or_throw-succeeds (as_text v) h ∙ ap some e)

pub read_claims-Read :
    (pr : Primitives) (kid : String) (payload : JsonObject) (times : ℤ × ℤ) (claims : JwtClaims)
    → read_claims pr kid payload times ≡ succeed claims
    → Read pr kid payload times claims
unfolding read_claims
read_claims-Read pr kid payload (exp, nbf) claims h =
    let (iss, iss_read, h1) = >>=-succeeds (or_throw (as_text (payload "iss"))) _ h in
    let (sub, sub_read, h2) = >>=-succeeds (or_throw (as_text (payload "sub"))) _ h1 in
    let (aud, aud_read, h3) = >>=-succeeds (or_throw (as_text (payload "aud"))) _ h2 in
    let (iat, iat_read, h4) = >>=-succeeds (number_or pr (payload "iat") (pos 0)) _ h3 in
    let (jti, jti_read, h5) = >>=-succeeds (or_throw (as_text (payload "jti"))) _ h4 in
    let (sid, sid_read, h6) = >>=-succeeds (or_throw (as_text (payload "sid"))) _ h5 in
    let (role, role_read, h7) = >>=-succeeds (text_or (payload "role") "user") _ h6 in
    let e = succeed-injective _ claims h7 in
    record {
      subject = reads_as (payload "sub") sub_read (ap (λ (c : JwtClaims). c.sub) e);
      token_id = reads_as (payload "jti") jti_read (ap (λ (c : JwtClaims). c.jti) e);
      session = reads_as (payload "sid") sid_read (ap (λ (c : JwtClaims). c.sid) e);
      role_read =
          text_or_read (payload "role") "user" role claims.role role_read
            (ap (λ (c : JwtClaims). c.role) e);
      issued_read =
          number_or_read pr (payload "iat") (pos 0) iat claims.iat iat_read
            (ap (λ (c : JwtClaims). c.iat) e);
      issuer_read = reads_as (payload "iss") iss_read (ap (λ (c : JwtClaims). c.iss) e);
      audience_read = reads_as (payload "aud") aud_read (ap (λ (c : JwtClaims). c.aud) e);
      same_kid = sym (ap (λ (c : JwtClaims). c.kid) e);
      same_exp = sym (ap (λ (c : JwtClaims). c.exp) e);
      same_nbf = sym (ap (λ (c : JwtClaims). c.nbf) e);
    }

pub text-injective : {a b : String} → text a ≡ text b → a ≡ b
text-injective h = cc
