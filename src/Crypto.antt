-- ===== src/Crypto.antt =====
-- Infrastructure/src/Security/OpenSslCrypto.cpp over bytes: the hexadecimal and base64url codes,
-- the drawn identifiers, and the stored form of a password. What OpenSSL computes (the random
-- bytes, SHA-256, PBKDF2) is an argument. The bit operations are written by `*`, `/` and `%`, which
-- agree with them where every byte is below 256.
pub mod Hex
pub mod Base64
pub mod Uuid
pub mod Passwords
use cppbackend_api.Base.{
  ℕ, zero, suc, ◌+◌, ◌-◌, ◌*◌, ◌/◌, ◌%◌, ◌^◌, Bool, true, false, not, ◌&&◌, ◌||◌, Option, none,
  some, List, [], ◌∷◌, ◌++◌, if◌then◌else◌, ltb, leb, ◌==◌, length, same_bytes,
}
use cppbackend_api.Validation.{is_space}

abbrev pub hex_digit : ℕ → ℕ
hex_digit d = if ltb d 10 then b'0' + d else b'a' + (d - 10)

-- bytesToHex: two digits for each byte.
abbrev pub bytes_to_hex : List ℕ → List ℕ
bytes_to_hex [] = []
bytes_to_hex (b ∷ bs) = hex_digit (b / 16) ∷ hex_digit (b % 16) ∷ bytes_to_hex bs

abbrev pub hex_value : ℕ → Option ℕ
hex_value c =
    if leb b'0' c && leb c b'9'
    then some (c - b'0')
    else if leb b'a' c && leb c b'f'
    then some (c - b'a' + 10)
    else if leb b'A' c && leb c b'F'
    then some (c - b'A' + 10)
    else none

-- strtoul(…, 16) of two characters, as a byte: blanks and a sign may come first, and what follows
-- the digits is ignored.
abbrev pub hex_pair : ℕ → ℕ → ℕ
hex_pair a b = elim (hex_value a) [
  | some x ↦ elim (hex_value b) [ some y ↦ x * 16 + y | none ↦ x ]
  | none ↦ elim (hex_value b) [
    | none ↦ 0
    | some y ↦ if is_space a || a == b'+' then y else if a == b'-' then (256 - y) % 256 else 0
  ]
]

abbrev pub hex_pairs : List ℕ → List ℕ
hex_pairs [] = []
hex_pairs (a ∷ []) = []
hex_pairs (a ∷ b ∷ cs) = hex_pair a b ∷ hex_pairs cs

unfoldable pub hex_to_bytes : List ℕ → List ℕ
hex_to_bytes hex = if length hex % 2 == 0 then hex_pairs hex else []

-- b64Chars[d] for a `d` below 64.
abbrev pub b64_char : ℕ → ℕ
b64_char d =
    if ltb d 26
    then b'A' + d
    else if ltb d 52
    then b'a' + (d - 26)
    else if ltb d 62
    then b'0' + (d - 52)
    else if d == 62
    then b'-'
    else b'_'

unfoldable pub base64_url_encode : List ℕ → List ℕ
base64_url_encode [] = []
base64_url_encode (b0 ∷ []) = b64_char (b0 / 4 % 64) ∷ b64_char (b0 * 16 % 64) ∷ []
base64_url_encode (b0 ∷ b1 ∷ []) =
    b64_char (b0 / 4 % 64) ∷ b64_char ((b0 * 16 + b1 / 16) % 64) ∷ b64_char (b1 * 4 % 64) ∷ []
base64_url_encode (b0 ∷ b1 ∷ b2 ∷ rest) =
    b64_char (b0 / 4 % 64)
    ∷ b64_char ((b0 * 16 + b1 / 16) % 64)
    ∷ b64_char ((b1 * 4 + b2 / 64) % 64)
    ∷ b64_char (b2 % 64)
    ∷ base64_url_encode rest

pub data Decoded : Type 0 where
  sextet : ℕ → Decoded
  padding invalid : Decoded

abbrev pub decode_char : ℕ → Decoded
decode_char c =
    if leb b'A' c && leb c b'Z'
    then sextet (c - b'A')
    else if leb b'a' c && leb c b'z'
    then sextet (c - b'a' + 26)
    else if leb b'0' c && leb c b'9'
    then sextet (c - b'0' + 52)
    else if c == b'-' || c == b'+'
    then sextet 62
    else if c == b'_' || c == b'/'
    then sextet 63
    else if c == b'='
    then padding
    else invalid

-- A decoded byte before the rest.
abbrev pub push : ℕ → Option (List ℕ) → Option (List ℕ)
push b none = none
push b (some bs) = some (b ∷ bs)

-- The loop of base64UrlDecode: `val` is a uint32_t, `bits` counts its bits that are still to be
-- written.
abbrev pub decode_loop : ℕ → ℕ → List ℕ → Option (List ℕ)
decode_loop val bits [] = some []
decode_loop val bits (c ∷ cs) = elim (decode_char c) [
  | invalid ↦ none
  | padding ↦ some []
  | sextet d ↦
      let next = (val * 64 + d) % 2 ^ 32 in
      if leb 8 (bits + 6)
      then push (next / 2 ^ (bits + 6 - 8) % 256) (decode_loop next (bits + 6 - 8) cs)
      else decode_loop next (bits + 6) cs
]

unfoldable pub base64_url_decode : List ℕ → Option (List ℕ)
base64_url_decode text = decode_loop 0 0 text

unfoldable pub sha256_hex : (List ℕ → List ℕ) → List ℕ → List ℕ
sha256_hex sha256_raw text = bytes_to_hex (sha256_raw text)

-- From the random bytes.
unfoldable pub generate_secure_token : List ℕ → List ℕ
generate_secure_token random = base64_url_encode random

abbrev pub set : List ℕ → ℕ → ℕ → List ℕ
set [] i v = []
set (b ∷ bs) zero v = v ∷ bs
set (b ∷ bs) (suc i) v = b ∷ set bs i v

abbrev pub byte_at : List ℕ → ℕ → ℕ
byte_at [] i = 0
byte_at (b ∷ bs) zero = b
byte_at (b ∷ bs) (suc i) = byte_at bs i

-- The print of the bytes from the `i`th on.
abbrev pub uuid_from : ℕ → List ℕ → List ℕ
uuid_from i [] = []
uuid_from i (b ∷ bs) =
    let rest = hex_digit (b / 16) ∷ hex_digit (b % 16) ∷ uuid_from (i + 1) bs in
    if i == 4 || i == 6 || i == 8 || i == 10 then b'-' ∷ rest else rest

-- From sixteen random bytes.
unfoldable pub generate_uuid_v4 : List ℕ → List ℕ
generate_uuid_v4 random =
    let versioned = set random 6 (byte_at random 6 % 16 + 0x40) in
    uuid_from 0 (set versioned 8 (byte_at versioned 8 % 64 + 0x80))

unfoldable pub constant_time_compare : List ℕ → List ℕ → Bool
constant_time_compare a b = if length a == length b then same_bytes a b else false
