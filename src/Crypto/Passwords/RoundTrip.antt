-- ===== src/Crypto/Passwords/RoundTrip.antt =====
-- A stored password is checked by the key that it was derived to.
use cppbackend_api.Base.{
  ℕ, suc, ◌+◌, ◌-◌, ◌<◌, ◌≡◌, refl, ap, ◌∙◌, Bool, true, false, some, List, [], ◌∷◌, length, arith,
  find, drop, substr, drop-add, take-append, drop-past, find_at-found, All, pos, ℤ, is_nil,
  same_bytes, same_bytes_iff, ◌↔◌,
}
use cppbackend_api.Crypto.{bytes_to_hex, hex_to_bytes}
use cppbackend_api.Crypto.Hex.{IsByte, bytes_to_hex-free_of, hex_to_bytes-bytes_to_hex}
use cppbackend_api.Crypto.Passwords.{
  Pbkdf2, hash_password, verify_password, verify_parts, matches, iterations, stoi,
}

-- What PKCS5_PBKDF2_HMAC leaves: as many bytes as were asked for.
abbrev pub FillsBuffer : Pbkdf2 → Type 0
FillsBuffer pbkdf2 =
    (password salt : List ℕ) (rounds : ℤ) (n : ℕ)
    → (length (pbkdf2 password salt rounds n) ≡ n) × All IsByte (pbkdf2 password salt rounds n)

verify_parts_lem :
    (pbkdf2 : Pbkdf2) (q stored : List ℕ) (first second : ℕ) (rounds : ℤ)
    → find b'$' (first + 1) stored ≡ some second
    → stoi (substr 14 (first - 14) stored) ≡ some rounds
    → verify_parts pbkdf2 q stored first
      ≡ some (
          matches pbkdf2 q rounds
            (hex_to_bytes (substr (first + 1) (second - (first + 1)) stored))
            (hex_to_bytes (drop (second + 1) stored)))
verify_parts_lem pbkdf2 q stored first second rounds found read =
    rw (found, verify_parts) (rw (read, verify_parts))

module _ (pbkdf2 : Pbkdf2) (fills : FillsBuffer pbkdf2) (salt : List ℕ)
    (good : All IsByte salt) where
  module _ (p : List ℕ) where
    stored_salt :
        let sh = bytes_to_hex salt in
        hex_to_bytes (substr 21 (21 + length sh - 21) (hash_password pbkdf2 salt p)) ≡ salt
    unfolding hash_password
    stored_salt =
        let sh = bytes_to_hex salt in
        let e : 21 + length sh - 21 ≡ length sh = omega arith in
        rw e (ap hex_to_bytes (take-append sh _) ∙ hex_to_bytes-bytes_to_hex salt good)

    stored_key :
        let sh = bytes_to_hex salt in
        hex_to_bytes (drop (21 + length sh + 1) (hash_password pbkdf2 salt p))
        ≡ pbkdf2 p salt (pos iterations) 32
    unfolding hash_password
    stored_key =
        let sh = bytes_to_hex salt in
        let key = pbkdf2 p salt (pos iterations) 32 in
        let e : 21 + length sh + 1 ≡ 21 + suc (length sh) = omega arith in
        rw e (
          ap hex_to_bytes (
            drop-add 21 (suc (length sh)) (hash_password pbkdf2 salt p)
            ∙ drop-past (suc (length sh)) b'$' sh (bytes_to_hex key) (omega arith))
          ∙ hex_to_bytes-bytes_to_hex key (fills p salt (pos iterations) 32).1)

    stored_parts :
        (q : List ℕ)
        → verify_password pbkdf2 q (hash_password pbkdf2 salt p)
          ≡ some (matches pbkdf2 q (pos iterations) salt (pbkdf2 p salt (pos iterations) 32))
    unfolding verify_password hash_password
    stored_parts q =
        let sh = bytes_to_hex salt in
        let key = pbkdf2 p salt (pos iterations) 32 in
        let found = find_at-found b'$' 21 sh (bytes_to_hex key) (bytes_to_hex-free_of salt good) in
        verify_parts_lem pbkdf2 q (hash_password pbkdf2 salt p) 20 (21 + length sh) (pos iterations)
          found refl
        ∙ ap some (
            ap
              (λ (x : List ℕ).
                matches pbkdf2 q (pos iterations) x
                  (hex_to_bytes (drop (21 + length sh + 1) (hash_password pbkdf2 salt p))))
              stored_salt
            ∙ ap (matches pbkdf2 q (pos iterations) salt) stored_key)

not-is_nil : (bs : List ℕ) → 0 < length bs → is_nil bs ≡ false
not-is_nil [] h = absurd (omega arith)
not-is_nil (b ∷ bs) h = refl

matches_key :
    (pbkdf2 : Pbkdf2) (q salt key : List ℕ)
    → 0 < length salt
    → length key ≡ 32
    → matches pbkdf2 q (pos iterations) salt key
      ≡ same_bytes (pbkdf2 q salt (pos iterations) 32) key
matches_key pbkdf2 q salt key long whole =
    rw (not-is_nil key (omega arith)) (rw (not-is_nil salt long) (rw whole))

-- With a salt that is not empty, checking a password against the stored form of another one throws
-- no exception, and accepts it exactly where PBKDF2 derives the same key of both. So a password is
-- always accepted against its own stored form.
pub verify_password-hash :
    (pbkdf2 : Pbkdf2) (salt p q : List ℕ)
    → FillsBuffer pbkdf2
    → All IsByte salt
    → 0 < length salt
    → (accepted : Bool) × (verify_password pbkdf2 q (hash_password pbkdf2 salt p) ≡ some accepted)
      × ((accepted ≡ true)
          ↔ (pbkdf2 q salt (pos iterations) 32 ≡ pbkdf2 p salt (pos iterations) 32))
verify_password-hash pbkdf2 salt p q fills good long =
    let key = pbkdf2 p salt (pos iterations) 32 in
    let whole : length key ≡ 32 = (fills p salt (pos iterations) 32).0 in
    (
      same_bytes (pbkdf2 q salt (pos iterations) 32) key,
      stored_parts pbkdf2 fills salt good p q ∙ ap some (matches_key pbkdf2 q salt key long whole),
      same_bytes_iff (pbkdf2 q salt (pos iterations) 32) key,
    )
