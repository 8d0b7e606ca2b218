-- ===== src/Examples/Codes.antt =====
-- The codes of OpenSslCrypto on small inputs, with a toy derivation in place of PBKDF2.
use cppbackend_api.Base.{
  ℕ, ◌%◌, ◌<◌, ◌≡◌, ◌↔◌, refl, Bool, true, some, List, [], ◌∷◌, arith, length, bytes, pos, zero,
  suc, All,
}
use cppbackend_api.Crypto.{base64_url_encode, base64_url_decode, generate_uuid_v4}
use cppbackend_api.Crypto.Base64.{base64_url_decode-encode}
use cppbackend_api.Crypto.Passwords.{Pbkdf2, hash_password, verify_password, iterations}
use cppbackend_api.Crypto.Passwords.RoundTrip.{FillsBuffer, verify_password-hash}
use cppbackend_api.Crypto.Hex.{IsByte}

abbrev some_bytes : List ℕ
some_bytes = 251 ∷ 255 ∷ 0 ∷ 7 ∷ []

coded : base64_url_encode some_bytes ≡ bytes "-_8ABw"
unfolding base64_url_encode
coded = refl

base64_url_decode-encode_example :
    base64_url_decode (base64_url_encode some_bytes) ≡ some some_bytes
base64_url_decode-encode_example = base64_url_decode-encode some_bytes (omega arith)

abbrev random : List ℕ
random = 1 ∷ 2 ∷ 3 ∷ 4 ∷ 5 ∷ 6 ∷ 255 ∷ 8 ∷ 255 ∷ 10 ∷ 11 ∷ 12 ∷ 13 ∷ 14 ∷ 15 ∷ 16 ∷ []

drawn : generate_uuid_v4 random ≡ bytes "01020304-0506-4f08-bf0a-0b0c0d0e0f10"
unfolding generate_uuid_v4
drawn = refl

-- Every byte of the key is the length of the password.
abbrev repeated : ℕ → ℕ → List ℕ
repeated b zero = []
repeated b (suc n) = b ∷ repeated b n

abbrev derive : Pbkdf2
derive password salt rounds n = repeated (length password % 256) n

repeated_fills : (b n : ℕ) → b < 256 → (length (repeated b n) ≡ n) × All IsByte (repeated b n)
repeated_fills b zero h = (refl, tt)
repeated_fills b (suc n) h =
    let (whole, good) = repeated_fills b n h in (omega (arith, whole), (h, good))

derive_fills : FillsBuffer derive
derive_fills password salt rounds n = repeated_fills (length password % 256) n (omega arith)

verify_password-hash_example :
    let salt : List ℕ = 1 ∷ 2 ∷ [] in
    let stored = hash_password derive salt (bytes "secret") in
    (accepted : Bool) × (verify_password derive (bytes "wrong pw") stored ≡ some accepted)
    × ((accepted ≡ true) ↔ (
        derive (bytes "wrong pw") salt (pos iterations) 32
        ≡ derive (bytes "secret") salt (pos iterations) 32))
verify_password-hash_example =
    verify_password-hash derive (1 ∷ 2 ∷ []) (bytes "secret") (bytes "wrong pw") derive_fills
      (omega arith) (omega arith)
