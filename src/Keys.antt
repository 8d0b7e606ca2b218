-- ===== src/Keys.antt =====
-- Infrastructure/src/Security/RsaKeyManager.cpp. Key pairs and their public parameters are OpenSSL's:
-- `extract_params` reads the modulus and the exponent off a public key.
pub mod Rotation
use cppbackend_api.Base.{
  ℕ, suc, Bool, true, false, Option, none, some, List, [], ◌∷◌, ◌++◌, String, append, to_string,
  str_eq, if◌then◌else◌, is_empty, ltb, length, find_first, is_nil,
}

pub record JwkKey : Type 0 where
  pub kty : String
  pub use_for : String
  pub alg : String
  pub kid : String
  pub n : String
  pub e : String

pub record SigningKey : Type 0 where
  pub kid : String
  pub private_key_pem : String
  pub public_key_pem : String
  pub jwk : JwkKey

-- The earlier keys, the oldest first.
pub record KeyManager : Type 0 where
  pub active_key : SigningKey
  pub previous_keys : List SigningKey
  pub cached_jwks_json : String

abbrev line : String → String → String → String
line name value rest =
    append "      \"" (append name (append "\": \"" (append value (append "\"" rest))))

abbrev write_jwk : JwkKey → Bool → String
write_jwk k is_last = append "    {\n" (
    append (line "kty" k.kty ",\n") (
      append (line "use" k.use_for ",\n") (
        append (line "alg" k.alg ",\n") (
          append (line "kid" k.kid ",\n") (
            append (line "n" k.n ",\n")
              (append (line "e" k.e "\n") (append "    }" (if is_last then "\n" else ",\n"))))))))

write_previous : List SigningKey → String
write_previous [] = ""
write_previous (k ∷ []) = write_jwk k.jwk true
write_previous (k ∷ q ∷ ks) = append (write_jwk k.jwk false) (write_previous (q ∷ ks))

-- rebuildJwksJsonLocked, the text that it caches.
unfoldable pub jwks_json : SigningKey → List SigningKey → String
unfolding write_previous
jwks_json active previous =
    append "{\n  \"keys\": [\n"
      (append (write_jwk active.jwk (is_nil previous)) (append (write_previous previous) "  ]\n}"))

abbrev pub create_key_record : (String → String × String) → String → String → String → SigningKey
create_key_record extract_params kid private public = record {
  kid = kid;
  private_key_pem = private;
  public_key_pem = public;
  jwk = record {
    kty = "RSA";
    use_for = "sig";
    alg = "RS256";
    kid = kid;
    n = (extract_params public).0;
    e = (extract_params public).1;
  };
}

-- The constructor: the drawn pair where one of the two keys is not given.
unfoldable pub first_keys :
    (String → String × String) → String → String → String → String × String → KeyManager
unfolding jwks_json
first_keys extract_params kid private public drawn =
    let pair =
      if is_empty private then drawn else if is_empty public then drawn else (private, public) in
    let active = create_key_record extract_params kid pair.0 pair.1 in
    record { active_key = active; previous_keys = []; cached_jwks_json = jwks_json active [] }

-- What one rotation is given: the instant, the new kid (none where empty) and the drawn key pair.
pub record NewKey : Type 0 where
  pub now : ℕ
  pub new_kid : String
  pub private_key_pem : String
  pub public_key_pem : String

abbrev pub kid_of : NewKey → String
kid_of given = if is_empty given.new_kid then append "key-" (to_string given.now) else given.new_kid

abbrev pub drop_oldest : List SigningKey → List SigningKey
drop_oldest [] = []
drop_oldest (k ∷ ks) = ks

-- At most five earlier keys are kept.
abbrev pub capped : List SigningKey → List SigningKey
capped ks = if ltb 5 (length ks) then drop_oldest ks else ks

unfoldable pub rotate_key : (String → String × String) → KeyManager → NewKey → KeyManager
unfolding jwks_json
rotate_key extract_params km given =
    let previous = capped (km.previous_keys ++ km.active_key ∷ []) in
    let active =
      create_key_record extract_params (kid_of given) given.private_key_pem given.public_key_pem in
    record {
      active_key = active;
      previous_keys = previous;
      cached_jwks_json = jwks_json active previous;
    }

abbrev pub has_kid : String → SigningKey → Bool
has_kid kid k = str_eq k.kid kid

abbrev pub public_key : Option SigningKey → Option String
public_key none = none
public_key (some k) = some k.public_key_pem

unfoldable pub get_verification_public_key_pem : KeyManager → String → Option String
get_verification_public_key_pem km kid =
    if has_kid kid km.active_key
    then some km.active_key.public_key_pem
    else public_key (find_first (has_kid kid) km.previous_keys)
