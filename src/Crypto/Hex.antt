-- ===== src/Crypto/Hex.antt =====
-- The hexadecimal code: reading back what was written, and which bytes are written.
use cppbackend_api.Base.{
  ℕ, ◌*◌, ◌/◌, ◌%◌, ◌<◌, ◌≡◌, refl, true, some, List, [], ◌∷◌, arith, length, All, ◌==◌, free_of,
}
use cppbackend_api.Crypto.{hex_digit, bytes_to_hex, hex_value, hex_pair, hex_pairs, hex_to_bytes}

abbrev pub IsByte : ℕ → Type 0
IsByte b = b < 256

hex_value-hex_digit : (d : ℕ) → d < 16 → hex_value (hex_digit d) ≡ some d
hex_value-hex_digit d h = ground arith

hex_pair-hex_digit : (b : ℕ) → b < 256 → hex_pair (hex_digit (b / 16)) (hex_digit (b % 16)) ≡ b
hex_pair-hex_digit b h =
    rw (hex_value-hex_digit (b / 16) (omega arith), hex_pair)
      (rw (hex_value-hex_digit (b % 16) (omega arith)) (omega arith))

length-bytes_to_hex : (bs : List ℕ) → length (bytes_to_hex bs) ≡ 2 * length bs
length-bytes_to_hex [] = refl
length-bytes_to_hex (b ∷ bs) = omega (arith, length-bytes_to_hex bs)

hex_pairs-bytes_to_hex : (bs : List ℕ) → All IsByte bs → hex_pairs (bytes_to_hex bs) ≡ bs
hex_pairs-bytes_to_hex [] h = refl
hex_pairs-bytes_to_hex (b ∷ bs) h =
    rw (hex_pair-hex_digit b h.0) (rw (hex_pairs-bytes_to_hex bs h.1))

-- hexToBytes reads back the bytes that bytesToHex wrote.
pub hex_to_bytes-bytes_to_hex : (bs : List ℕ) → All IsByte bs → hex_to_bytes (bytes_to_hex bs) ≡ bs
unfolding hex_to_bytes
hex_to_bytes-bytes_to_hex bs h =
    let even : (length (bytes_to_hex bs) % 2 == 0) ≡ true =
      ground (arith, length-bytes_to_hex bs) in
    rw even (hex_pairs-bytes_to_hex bs h)

pub bytes_to_hex-free_of : (bs : List ℕ) → All IsByte bs → free_of b'$' (bytes_to_hex bs) ≡ true
bytes_to_hex-free_of [] h = refl
bytes_to_hex-free_of (b ∷ bs) h = ground (arith, bytes_to_hex-free_of bs h.1)
