-- ===== src/Crypto/Uuid.antt =====
-- The identifiers: their layout, their version and variant bits, and what stays of the draw.
use cppbackend_api.Base.{
  ℕ, zero, suc, ◌+◌, ◌*◌, ◌/◌, ◌%◌, ◌<◌, ◌≡◌, ◌≢◌, refl, not, List, [], ◌∷◌, arith, length, All,
  ◌==◌, ◌||◌, select, ap, ◌∙◌, sym, if◌then◌else◌,
}
use cppbackend_api.Crypto.{bytes_to_hex, hex_to_bytes, set, byte_at, uuid_from, generate_uuid_v4}
use cppbackend_api.Crypto.Hex.{IsByte, hex_to_bytes-bytes_to_hex}

length-set : (bs : List ℕ) (i v : ℕ) → length (set bs i v) ≡ length bs
length-set [] i v = refl
length-set (b ∷ bs) zero v = refl
length-set (b ∷ bs) (suc i) v = omega (arith, length-set bs i v)

byte_at-set : (bs : List ℕ) (i v : ℕ) → i < length bs → byte_at (set bs i v) i ≡ v
byte_at-set [] i v h = absurd (omega arith)
byte_at-set (b ∷ bs) zero v h = refl
byte_at-set (b ∷ bs) (suc i) v h = byte_at-set bs i v (omega arith)

byte_at-set_other : (bs : List ℕ) (i j v : ℕ) → i ≢ j → byte_at (set bs i v) j ≡ byte_at bs j
byte_at-set_other [] i j v h = refl
byte_at-set_other (b ∷ bs) zero zero v h = absurd (h refl)
byte_at-set_other (b ∷ bs) zero (suc j) v h = refl
byte_at-set_other (b ∷ bs) (suc i) zero v h = refl
byte_at-set_other (b ∷ bs) (suc i) (suc j) v h = byte_at-set_other bs i j v (omega arith)

set-IsByte : (bs : List ℕ) (i v : ℕ) → v < 256 → All IsByte bs → All IsByte (set bs i v)
set-IsByte [] i v h p = tt
set-IsByte (b ∷ bs) zero v h p = (h, p.1)
set-IsByte (b ∷ bs) (suc i) v h p = (p.0, set-IsByte bs i v h p.1)

abbrev pub undashed : List ℕ → List ℕ
undashed = select (λ c. not (c == b'-'))

undashed-uuid_from :
    (i : ℕ) (bs : List ℕ) → All IsByte bs → undashed (uuid_from i bs) ≡ bytes_to_hex bs
undashed-uuid_from i [] h = refl
undashed-uuid_from i (b ∷ bs) h = ground (arith, undashed-uuid_from (i + 1) bs)

-- How many of the positions from `i` on have a dash before them.
abbrev dashes : ℕ → ℕ → ℕ
dashes i zero = 0
dashes i (suc n) =
    let rest = dashes (i + 1) n in if i == 4 || i == 6 || i == 8 || i == 10 then suc rest else rest

length-uuid_from :
    (i : ℕ) (bs : List ℕ) → length (uuid_from i bs) ≡ 2 * length bs + dashes i (length bs)
length-uuid_from i [] = refl
length-uuid_from i (b ∷ bs) = ground (arith, length-uuid_from (i + 1) bs)

-- The bytes that an identifier prints.
abbrev pub printed : List ℕ → List ℕ
printed random = hex_to_bytes (undashed (generate_uuid_v4 random))

-- An identifier drawn from sixteen bytes has 36 characters. Its digits print the bytes of the draw,
-- but for the seventh, whose upper half is 4, and the ninth, whose upper two bits are 10.
pub generate_uuid_v4_lem :
    (random : List ℕ)
    → length random ≡ 16
    → All IsByte random
    → (length (generate_uuid_v4 random) ≡ 36)
      × (byte_at (printed random) 6 / 16 ≡ 4)
      × (byte_at (printed random) 8 / 64 ≡ 2)
      × ((i : ℕ) → i ≢ 6 → i ≢ 8 → byte_at (printed random) i ≡ byte_at random i)
unfolding generate_uuid_v4
generate_uuid_v4_lem random n h =
    let v6 = byte_at random 6 % 16 + 0x40 in
    let versioned = set random 6 v6 in
    let v8 = byte_at versioned 8 % 64 + 0x80 in
    let final = set versioned 8 v8 in
    let good : All IsByte final =
      set-IsByte versioned 8 v8 (omega arith) (set-IsByte random 6 v6 (omega arith) h) in
    let size : length final ≡ 16 = length-set versioned 8 v8 ∙ length-set random 6 v6 ∙ n in
    let back : printed random ≡ final =
      ap hex_to_bytes (undashed-uuid_from 0 final good) ∙ hex_to_bytes-bytes_to_hex final good in
    let at6 : byte_at final 6 ≡ v6 =
      byte_at-set_other versioned 8 6 v8 (omega arith) ∙ byte_at-set random 6 v6 (omega arith) in
    let at8 : byte_at final 8 ≡ v8 =
      byte_at-set versioned 8 v8 (omega (arith, length-set random 6 v6)) in
    (
      length-uuid_from 0 final ∙ ap (λ (k : ℕ). 2 * k + dashes 0 k) size,
      rw back (omega arith),
      rw back (omega arith),
      λ i a b.
          ap (λ (bs : List ℕ). byte_at bs i) back
          ∙ byte_at-set_other versioned 8 i v8 (λ e. b (sym e))
          ∙ byte_at-set_other random 6 i v6 (λ e. a (sym e)),
    )
