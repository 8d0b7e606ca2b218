-- ===== src/Base/Text.antt =====
-- std::string and std::string_view as native texts, one character for each byte.
use Prim.Native.Nat.{ℕ, suc, ◌+◌, ◌/◌, ◌%◌, ◌<◌, compare, Ordering}
use Prim.Native.Char.{Char, char, code, IsScalar}
use Prim.Native.String
use Prim.Native.String.{String}
use mathlib.Core.Bool.{Bool, true, false}
use mathlib.Core.Path.{◌≡◌, refl}
use mathlib.Core.List.{List, [], ◌∷◌}
use native.Mathlib.Omega.{arith}
use cppbackend_api.Base.Tests.{◌==◌, if◌then◌else◌}
use cppbackend_api.Base.Lists.{All}

-- The bytes of a text.
abbrev pub bytes : String → List ℕ
bytes String.[] = []
bytes (String.◌∷◌ c s) = code c ∷ bytes s

abbrev pub is_empty : String → Bool
is_empty String.[] = true
is_empty (String.◌∷◌ c s) = false

-- size() and length(): the number of bytes.
abbrev pub size : String → ℕ
size String.[] = 0
size (String.◌∷◌ c s) = suc (size s)

abbrev pub append : String → String → String
append s t = String.◌++◌ s t

digit : ℕ → String
digit d =
    if d == 0
    then "0"
    else if d == 1
    then "1"
    else if d == 2
    then "2"
    else if d == 3
    then "3"
    else if d == 4
    then "4"
    else if d == 5
    then "5"
    else if d == 6
    then "6"
    else if d == 7
    then "7"
    else if d == 8
    then "8"
    else "9"

-- The fuel is the number itself: each round divides it by ten.
decimal_from : ℕ → ℕ → String → String
decimal_from fuel n acc =
    elim fuel as (λ _. ℕ → String → String) [
      | Prim.Native.Nat.zero ↦ λ n acc. append (digit (n % 10)) acc
      | suc (k → rest) ↦ λ n acc.
          if n / 10 == 0
          then append (digit (n % 10)) acc
          else rest (n / 10) (append (digit (n % 10)) acc)
    ]
      n acc

-- std::to_string of an unsigned number.
unfoldable pub to_string : ℕ → String
unfolding decimal_from digit
to_string n = decimal_from n n ""

IsScalar_byte : (n : ℕ) → n < 256 → IsScalar n
IsScalar_byte n h = let e : compare n 55296 ≡ Ordering.lt = ground arith in rw e tt

-- The character of a byte.
unfoldable pub char_of : ℕ → Char
unfolding IsScalar_byte
char_of b = char (b % 256) (IsScalar_byte (b % 256) (omega arith))

-- The text that holds the bytes.
abbrev pub text_of : List ℕ → String
text_of [] = ""
text_of (b ∷ bs) = String.◌∷◌ (char_of b) (text_of bs)

pub bytes-text_of : (bs : List ℕ) → All (λ b. b < 256) bs → bytes (text_of bs) ≡ bs
unfolding char_of
bytes-text_of [] h = refl
bytes-text_of (b ∷ bs) h = ground (arith, bytes-text_of bs)
