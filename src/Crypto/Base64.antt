-- ===== src/Crypto/Base64.antt =====
-- The base64url code: reading back what was written, and which characters are written.
use cppbackend_api.Base.{
  ℕ, ◌+◌, ◌*◌, ◌/◌, ◌%◌, ◌^◌, ◌<◌, ◌≡◌, refl, false, some, List, [], ◌∷◌, arith, All, ap, free_of,
  true, ◌∙◌, ◌==◌,
}
use cppbackend_api.Crypto.{
  b64_char, base64_url_encode, decode_char, decode_loop, base64_url_decode, sextet, push,
}
use cppbackend_api.Crypto.Hex.{IsByte}

decode_char-b64_char : (d : ℕ) → d < 64 → decode_char (b64_char d) ≡ sextet d
decode_char-b64_char d h = ground arith

-- The accumulator after one more character.
abbrev next : ℕ → ℕ → ℕ
next val d = (val * 64 + d) % 2 ^ 32

-- A character in each of the four places of a group.
module _ (val d : ℕ) (cs : List ℕ) (h : d < 64) where
  first_char : decode_loop val 0 (b64_char d ∷ cs) ≡ decode_loop (next val d) 6 cs
  first_char = rw (decode_char-b64_char d h, decode_loop)

  second_char :
      decode_loop val 6 (b64_char d ∷ cs)
      ≡ push (next val d / 2 ^ 4 % 256) (decode_loop (next val d) 4 cs)
  second_char = rw (decode_char-b64_char d h, decode_loop)

  third_char :
      decode_loop val 4 (b64_char d ∷ cs)
      ≡ push (next val d / 2 ^ 2 % 256) (decode_loop (next val d) 2 cs)
  third_char = rw (decode_char-b64_char d h, decode_loop)

  fourth_char :
      decode_loop val 2 (b64_char d ∷ cs) ≡ push (next val d % 256) (decode_loop (next val d) 0 cs)
  fourth_char = rw (decode_char-b64_char d h, decode_loop) (ground arith)

-- The byte that a second, a third and a fourth character complete.
second_byte :
    (val a b : ℕ)
    → a < 256
    → b < 256
    → next (next val (a / 4 % 64)) ((a * 16 + b / 16) % 64) / 2 ^ 4 % 256 ≡ a
second_byte val a b ha hb = omega arith

third_byte :
    (val a b c : ℕ)
    → b < 256
    → c < 256
    → next (next val ((a * 16 + b / 16) % 64)) ((b * 4 + c / 64) % 64) / 2 ^ 2 % 256 ≡ b
third_byte val a b c hb hc = omega arith

fourth_byte : (val b c : ℕ) → c < 256 → next (next val ((b * 4 + c / 64) % 64)) (c % 64) % 256 ≡ c
fourth_byte val b c hc = omega arith

last_of_one : (val a : ℕ) → a < 256 → next (next val (a / 4 % 64)) (a * 16 % 64) / 2 ^ 4 % 256 ≡ a
last_of_one val a ha = omega arith

last_of_two :
    (val a b : ℕ)
    → b < 256
    → next (next val ((a * 16 + b / 16) % 64)) (b * 4 % 64) / 2 ^ 2 % 256 ≡ b
last_of_two val a b hb = omega arith

pair : {x y a b : ℕ} → x ≡ a → y ≡ b → push x (some (y ∷ [])) ≡ some (a ∷ b ∷ [])
pair p q = cc

group :
    {x y z a b c : ℕ} {bs : List ℕ}
    → x ≡ a
    → y ≡ b
    → z ≡ c
    → push x (push y (push z (some bs))) ≡ some (a ∷ b ∷ c ∷ bs)
group p q r = cc

decode_loop-encode :
    (val : ℕ) (bs : List ℕ) → All IsByte bs → decode_loop val 0 (base64_url_encode bs) ≡ some bs
unfolding base64_url_encode
decode_loop-encode val [] h = refl
decode_loop-encode val (a ∷ []) h =
    first_char val (a / 4 % 64) (b64_char (a * 16 % 64) ∷ []) (omega arith)
    ∙ second_char (next val (a / 4 % 64)) (a * 16 % 64) [] (omega arith)
    ∙ ap (λ (x : ℕ). some (x ∷ [])) (last_of_one val a h.0)
decode_loop-encode val (a ∷ b ∷ []) h =
    let d1 = (a * 16 + b / 16) % 64 in
    let d2 = b * 4 % 64 in
    let v1 = next val (a / 4 % 64) in
    let v2 = next v1 d1 in
    first_char val (a / 4 % 64) (b64_char d1 ∷ b64_char d2 ∷ []) (omega arith)
    ∙ second_char v1 d1 (b64_char d2 ∷ []) (omega arith)
    ∙ ap (push _) (third_char v2 d2 [] (omega arith))
    ∙ pair (second_byte val a b h.0 h.1.0) (last_of_two v1 a b h.1.0)
decode_loop-encode val (a ∷ b ∷ c ∷ bs) h =
    let d1 = (a * 16 + b / 16) % 64 in
    let d2 = (b * 4 + c / 64) % 64 in
    let d3 = c % 64 in
    let v1 = next val (a / 4 % 64) in
    let v2 = next v1 d1 in
    let v3 = next v2 d2 in
    let rest = base64_url_encode bs in
    first_char val (a / 4 % 64) (b64_char d1 ∷ b64_char d2 ∷ b64_char d3 ∷ rest) (omega arith)
    ∙ second_char v1 d1 (b64_char d2 ∷ b64_char d3 ∷ rest) (omega arith)
    ∙ ap (push _) (
        third_char v2 d2 (b64_char d3 ∷ rest) (omega arith)
        ∙ ap (push _) (
            fourth_char v3 d3 rest (omega arith)
            ∙ ap (push _) (decode_loop-encode (next v3 d3) bs h.1.1.1)))
    ∙ group (second_byte val a b h.0 h.1.0) (third_byte v1 a b c h.1.0 h.1.1.0)
        (fourth_byte v2 b c h.1.1.0)

-- base64UrlDecode reads back the bytes that base64UrlEncode wrote.
pub base64_url_decode-encode :
    (bs : List ℕ) → All IsByte bs → base64_url_decode (base64_url_encode bs) ≡ some bs
unfolding base64_url_decode
base64_url_decode-encode bs h = decode_loop-encode 0 bs h

-- A code that is an ASCII character other than the dot.
abbrev pub IsTokenChar : ℕ → Type 0
IsTokenChar c = (c < 128) × ((c == b'.') ≡ false)

b64_char-IsTokenChar : (x : ℕ) → IsTokenChar (b64_char (x % 64))
b64_char-IsTokenChar x = (ground arith, ground arith)

pub base64_url_encode-IsTokenChar : (bs : List ℕ) → All IsTokenChar (base64_url_encode bs)
unfolding base64_url_encode
base64_url_encode-IsTokenChar [] = tt
base64_url_encode-IsTokenChar (a ∷ []) =
    (b64_char-IsTokenChar (a / 4), (b64_char-IsTokenChar (a * 16), tt))
base64_url_encode-IsTokenChar (a ∷ b ∷ []) = (
  b64_char-IsTokenChar (a / 4),
  (b64_char-IsTokenChar (a * 16 + b / 16), (b64_char-IsTokenChar (b * 4), tt)),
)
base64_url_encode-IsTokenChar (a ∷ b ∷ c ∷ bs) = (
  b64_char-IsTokenChar (a / 4),
  (
    b64_char-IsTokenChar (a * 16 + b / 16),
    (
      b64_char-IsTokenChar (b * 4 + c / 64),
      (b64_char-IsTokenChar c, base64_url_encode-IsTokenChar bs),
    ),
  ),
)

pub free_of_dot : (bs : List ℕ) → All IsTokenChar bs → free_of b'.' bs ≡ true
free_of_dot [] h = refl
free_of_dot (b ∷ bs) h = ground (arith, free_of_dot bs h.1)
