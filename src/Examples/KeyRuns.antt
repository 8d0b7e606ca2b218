-- ===== src/Examples/KeyRuns.antt =====
-- Rotations of the signing key.
use cppbackend_api.Base.{◌≡◌, refl, none, List, [], ◌∷◌, String, append}
use cppbackend_api.Keys.{
  SigningKey, KeyManager, NewKey, rotate_key, create_key_record, get_verification_public_key_pem,
}
use cppbackend_api.Keys.Rotation.{rotate_all}

abbrev pub params : String → String × String
params public = (append "n:" public, "AQAB")

abbrev pub key : String → SigningKey
key kid = create_key_record params kid "private" (append "public-" kid)

abbrev pub km : KeyManager
km = record {
  active_key = key "now";
  previous_keys = key "k1" ∷ key "k2" ∷ key "k3" ∷ key "k4" ∷ key "k5" ∷ [];
  cached_jwks_json = "";
}

abbrev pub given : String → NewKey
given kid = record {
  now = 1000;
  new_kid = kid;
  private_key_pem = "private";
  public_key_pem = "public";
}

abbrev pub later : List NewKey
later = given "b" ∷ given "c" ∷ given "d" ∷ given "e" ∷ []

-- The fifth rotation drops the youngest of five earlier keys.
earlier_key_dropped :
    get_verification_public_key_pem (rotate_all params km (given "a" ∷ later)) "k5" ≡ none
unfolding get_verification_public_key_pem rotate_key
earlier_key_dropped = refl
