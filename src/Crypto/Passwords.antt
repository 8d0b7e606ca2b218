-- ===== src/Crypto/Passwords.antt =====
-- OpenSslCrypto::hashPassword and verifyPassword. `pbkdf2 password salt iterations length` is what
-- PKCS5_PBKDF2_HMAC leaves in a cleared buffer of that length.
pub mod RoundTrip
use cppbackend_api.Base.{
  ℕ, zero, suc, ◌+◌, ◌-◌, ◌*◌, Bool, true, false, not, ◌&&◌, ◌||◌, Option, none, some, List, [],
  ◌∷◌, ◌++◌, if◌then◌else◌, ltb, leb, ◌==◌, length, bytes, find, drop, substr, starts_with, is_nil,
  same_bytes, ℤ, pos, negsuc,
}
use cppbackend_api.Validation.{is_space}
use cppbackend_api.Crypto.{bytes_to_hex, hex_to_bytes}

abbrev pub Pbkdf2 : Type 0
Pbkdf2 = List ℕ → List ℕ → ℤ → ℕ → List ℕ

abbrev pub prefix : List ℕ
prefix = bytes "pbkdf2_sha256$"

abbrev pub iterations : ℕ
iterations = 100000

-- With the drawn salt of 32 bytes.
unfoldable pub hash_password : Pbkdf2 → List ℕ → List ℕ → List ℕ
hash_password pbkdf2 salt password =
    prefix
    ++ (bytes "100000"
        ++ (b'$'
            ∷ (bytes_to_hex salt
                ++ (b'$' ∷ bytes_to_hex (pbkdf2 password salt (pos iterations) 32)))))

abbrev pub is_digit : ℕ → Bool
is_digit c = leb b'0' c && leb c b'9'

-- The value of the digits at the front, after `acc`.
abbrev pub digits_value : ℕ → List ℕ → ℕ
digits_value acc [] = acc
digits_value acc (c ∷ cs) =
    let rest = digits_value (acc * 10 + (c - b'0')) cs in if is_digit c then rest else acc

-- The digits after the sign: none where there are none, or where the value is out of an int's range.
abbrev pub signed_digits : Bool → List ℕ → Option ℤ
signed_digits minus [] = none
signed_digits minus (c ∷ cs) =
    let n = digits_value 0 (c ∷ cs) in
    if not (is_digit c)
    then none
    else if minus
    then (if n == 0 then some (pos 0) else if leb n 2147483648 then some (negsuc (n - 1)) else none)
    else if leb n 2147483647
    then some (pos n)
    else none

-- std::stoi: none where it throws.
abbrev pub stoi : List ℕ → Option ℤ
stoi [] = none
stoi (c ∷ cs) =
    let rest = stoi cs in
    if is_space c
    then rest
    else if c == b'-'
    then signed_digits true cs
    else if c == b'+'
    then signed_digits false cs
    else signed_digits false (c ∷ cs)

-- The comparison of the derived key with the stored one.
abbrev pub matches : Pbkdf2 → List ℕ → ℤ → List ℕ → List ℕ → Bool
matches pbkdf2 password rounds salt expected =
    if is_nil expected || is_nil salt
    then false
    else same_bytes (pbkdf2 password salt rounds (length expected)) expected

-- From the third '$' on, where the second stands at `first`: none where std::stoi throws.
abbrev pub verify_parts : Pbkdf2 → List ℕ → List ℕ → ℕ → Option Bool
verify_parts pbkdf2 password stored first = elim (find b'$' (first + 1) stored) [
  | none ↦ some false
  | some second ↦ elim (stoi (substr 14 (first - 14) stored)) [
    | none ↦ none
    | some rounds ↦ some (
        matches pbkdf2 password rounds
          (hex_to_bytes (substr (first + 1) (second - (first + 1)) stored))
          (hex_to_bytes (drop (second + 1) stored)))
  ]
]

-- None where an exception is thrown.
unfoldable pub verify_password : Pbkdf2 → List ℕ → List ℕ → Option Bool
verify_password pbkdf2 password stored =
    if starts_with prefix stored
    then elim (find b'$' 14 stored) [
      | none ↦ some false
      | some first ↦ verify_parts pbkdf2 password stored first
    ]
    else some false
