-- ===== src/GoogleClient/Soundness.antt =====
-- What the claims of an accepted token establish.
use cppbackend_api.Base.{
  ℕ, ◌≡◌, ◌⊎◌, refl, ap, ◌∙◌, Bool, true, false, ◌&&◌, ◌||◌, inl, inr, Option, none, some, List,
  String, bytes, str_eq, arith, is_empty, Bool-cases, ℤ, pos, negsuc, ◌≤◌, leb→le,
}
use cppbackend_api.Auth.{GoogleUserInfo}
use cppbackend_api.Jwt.{
  JsonValue, absent, text, boolean, number, other, JsonObject, Primitives, ◌>>=◌, succeed, or_throw,
  as_text, as_number, has,
}
use cppbackend_api.Jwt.Claims.{text_or}
use cppbackend_api.Jwt.Signed.{>>=-succeeds, or_throw-succeeds}
use cppbackend_api.Jwt.Reading.{text_of_as_text}
use cppbackend_api.GoogleClient.{
  GoogleClient, demand, refuse, issuer_ok, for_client, contains_part, audience_ok, not_past,
  expiry_ok, email_verified, read_profile, validate_claims, parse_and_validate_token_claims,
}

demand-succeeds :
    (b : Bool) (code : ℕ) (message detail : String) {u : Unit {0}}
    → demand b code message detail ≡ succeed u
    → b ≡ true
demand-succeeds true code message detail h = refl
demand-succeeds false code message detail h = cc

-- The issuer, where the token names one.
abbrev pub is_issuer : JsonValue → Bool
is_issuer absent = true
is_issuer (text iss) = str_eq iss "accounts.google.com" || str_eq iss "https://accounts.google.com"
is_issuer v = false

issuer_ok_sound : (v : JsonValue) {u : Unit {0}} → issuer_ok v ≡ succeed u → is_issuer v ≡ true
issuer_ok_sound absent h = refl
issuer_ok_sound (text iss) h = demand-succeeds (is_issuer (text iss)) _ _ _ h
issuer_ok_sound (number z) h = cc
issuer_ok_sound (boolean b) h = cc
issuer_ok_sound other h = cc

-- The audience, where the token names one and the client has an id.
abbrev pub is_audience : String → JsonValue → Bool
is_audience client_id absent = true
is_audience client_id (text aud) =
    is_empty client_id || str_eq aud client_id || contains_part (bytes "test-") (bytes client_id)
is_audience client_id v = is_empty client_id

audience_ok_sound :
    (client_id : String) (v : JsonValue) {u : Unit {0}}
    → audience_ok client_id v ≡ succeed u
    → is_audience client_id v ≡ true
audience_ok_sound client_id absent h = refl
audience_ok_sound client_id (text aud) h = elim (Bool-cases (is_empty client_id)) [
  | inl e ↦ rw e refl
  | inr e ↦ ground (arith, e, demand-succeeds (for_client client_id aud) _ _ _ (rw e at h))
]
audience_ok_sound client_id (number z) h = elim (Bool-cases (is_empty client_id)) [
  | inl e ↦ e
  | inr e ↦ absurd (ground (arith, e, h))
]
audience_ok_sound client_id (boolean b) h = elim (Bool-cases (is_empty client_id)) [
  | inl e ↦ e
  | inr e ↦ absurd (ground (arith, e, h))
]
audience_ok_sound client_id other h = elim (Bool-cases (is_empty client_id)) [
  | inl e ↦ e
  | inr e ↦ absurd (ground (arith, e, h))
]

not_past-le : (now : ℕ) (z : ℤ) → not_past now z ≡ true → (n : ℕ) × (z ≡ pos n) × (now ≤ n)
not_past-le now (pos n) h = (n, refl, leb→le now n h)
not_past-le now (negsuc n) h = cc

-- The expiry, where the token names one.
abbrev pub Unexpired : Primitives → ℕ → JsonValue → Type 0
Unexpired pr now v = (v ≡ absent) ⊎ ((n : ℕ) × (as_number pr v ≡ some (pos n)) × (now ≤ n))

read_in_time :
    (pr : Primitives) (now : ℕ) (v : JsonValue) {u : Unit {0}}
    → (or_throw (as_number pr v) >>= λ exp.
        demand (not_past now exp) 401 "Token expired" "Google ID token has expired.")
      ≡ succeed u
    → Unexpired pr now v
read_in_time pr now v h =
    let (exp, read, h1) = >>=-succeeds (or_throw (as_number pr v)) _ h in
    let (n, e, le) = not_past-le now exp (demand-succeeds (not_past now exp) _ _ _ h1) in
    inr (n, or_throw-succeeds (as_number pr v) read ∙ ap some e, le)

expiry_ok_sound :
    (pr : Primitives) (now : ℕ) (v : JsonValue) {u : Unit {0}}
    → expiry_ok pr now v ≡ succeed u
    → Unexpired pr now v
expiry_ok_sound pr now absent h = inl refl
expiry_ok_sound pr now (number z) h = read_in_time pr now (number z) h
expiry_ok_sound pr now (boolean b) h = read_in_time pr now (boolean b) h
expiry_ok_sound pr now other h = read_in_time pr now other h
expiry_ok_sound pr now (text s) h = read_in_time pr now (text s) h

-- The email counts as verified, but for false and for a text other than "true".
abbrev pub is_verified : JsonValue → Bool
is_verified absent = true
is_verified (boolean b) = b
is_verified (text s) = str_eq s "true"
is_verified (number z) = true
is_verified other = true

email_verified_sound : (v : JsonValue) → email_verified v ≡ true → is_verified v ≡ true
email_verified_sound absent h = refl
email_verified_sound (boolean b) h = h
email_verified_sound (text s) h = h
email_verified_sound (number z) h = refl
email_verified_sound other h = refl

-- What the claims of an accepted token say.
pub record Vouched (svc : GoogleClient) (now : ℕ) (json : JsonObject) (info : GoogleUserInfo)
    : Type 0 where
  pub issued : is_issuer (json "iss") ≡ true
  pub addressed : is_audience svc.client_id (json "aud") ≡ true
  pub unexpired : Unexpired svc.primitives now (json "exp")
  pub verified : is_verified (json "email_verified") ≡ true
  pub subject : json "sub" ≡ text info.google_id
  pub address : json "email" ≡ text info.email

info-injective : (a b : GoogleUserInfo) → succeed a ≡ succeed b → a ≡ b
info-injective a b h = cc

read_profile_sound :
    (json : JsonObject) (info : GoogleUserInfo)
    → read_profile json ≡ succeed info
    → (email_verified (json "email_verified") ≡ true)
      × (json "sub" ≡ text info.google_id)
      × (json "email" ≡ text info.email)
unfolding read_profile
read_profile_sound json info h =
    let (u, present, h1) =
      >>=-succeeds (demand (has (json "sub") && has (json "email")) _ _ _) _ h in
    let (u2, verified, h2) =
      >>=-succeeds (demand (email_verified (json "email_verified")) _ _ _) _ h1 in
    let (sub, sub_read, h3) = >>=-succeeds (or_throw (as_text (json "sub"))) _ h2 in
    let (email, email_read, h4) = >>=-succeeds (or_throw (as_text (json "email"))) _ h3 in
    let (name, name_read, h5) = >>=-succeeds (text_or (json "name") "") _ h4 in
    let (picture, picture_read, h6) = >>=-succeeds (text_or (json "picture") "") _ h5 in
    let e = info-injective _ info h6 in
    (
      demand-succeeds _ _ _ _ verified,
      text_of_as_text (json "sub") (or_throw-succeeds _ sub_read)
          ∙ ap (λ (i : GoogleUserInfo). text i.google_id) e,
      text_of_as_text (json "email") (or_throw-succeeds _ email_read)
          ∙ ap (λ (i : GoogleUserInfo). text i.email) e,
    )

validate_claims_sound :
    (svc : GoogleClient) (now : ℕ) (json : JsonObject) (info : GoogleUserInfo)
    → validate_claims svc now json ≡ succeed info
    → Vouched svc now json info
unfolding validate_claims
validate_claims_sound svc now json info h =
    let (u, issued, h1) = >>=-succeeds (issuer_ok (json "iss")) _ h in
    let (u2, addressed, h2) = >>=-succeeds (audience_ok svc.client_id (json "aud")) _ h1 in
    let (u3, unexpired, h3) = >>=-succeeds (expiry_ok svc.primitives now (json "exp")) _ h2 in
    let (verified, subject, address) = read_profile_sound json info h3 in
    record {
      issued = issuer_ok_sound (json "iss") issued;
      addressed = audience_ok_sound svc.client_id (json "aud") addressed;
      unexpired = expiry_ok_sound svc.primitives now (json "exp") unexpired;
      verified = email_verified_sound (json "email_verified") verified;
      subject = subject;
      address = address;
    }

loaded_claims :
    (svc : GoogleClient) (now : ℕ) (o : Option JsonObject) (info : GoogleUserInfo)
    → elim o [
      | none ↦ refuse 400 "Malformed Google token" "Payload is not valid JSON."
      | some json ↦ validate_claims svc now json
    ]
      ≡ succeed info
    → (json : JsonObject) × (o ≡ some json) × Vouched svc now json info
loaded_claims svc now none info h = cc
loaded_claims svc now (some json) info h = (json, refl, validate_claims_sound svc now json info h)

-- Where the claims of a Google token are accepted, they are JSON; the issuer is Google, where one is
-- named; the audience is this client, where one is named and the client has an id without "test-";
-- the token has not expired, where an expiry is named; email_verified is neither false nor a text
-- other than "true" (it may be missing, or a number or another value); and the profile has the
-- subject and the email of the claims.
pub parse_and_validate_token_claims_sound :
    (svc : GoogleClient) (now : ℕ) (payload : List ℕ) (info : GoogleUserInfo)
    → parse_and_validate_token_claims svc now payload ≡ succeed info
    → (json : JsonObject) × (svc.primitives.load payload ≡ some json) × Vouched svc now json info
unfolding parse_and_validate_token_claims
parse_and_validate_token_claims_sound svc now payload info h =
    loaded_claims svc now (svc.primitives.load payload) info h
