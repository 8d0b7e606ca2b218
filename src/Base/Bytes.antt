-- ===== src/Base/Bytes.antt =====
-- std::string::find and substr over bytes.
use Prim.Native.Nat.{ℕ, zero, suc, ◌+◌}
use mathlib.Core.Path.{◌≡◌, refl, ap}
use mathlib.Core.Logic.{◌↔◌, inl, inr}
use mathlib.Core.Bool.{Bool, true, false, not, ◌&&◌}
use mathlib.Core.Option.{Option, none, some}
use mathlib.Core.List.{List, [], ◌∷◌, ◌++◌}
use native.Mathlib.Omega.{arith}
use cppbackend_api.Base.Tests.{◌==◌, if◌then◌else◌, ==_iff, Bool-cases}
use cppbackend_api.Base.Lists.{length, all, take, drop}

-- find(c, from): the first position at or after `from` that holds the byte `c`. The list is what
-- stands from position `at` on.
abbrev pub find_at : ℕ → ℕ → List ℕ → Option ℕ
find_at c at [] = none
find_at c at (b ∷ bs) = if b == c then some at else find_at c (suc at) bs

abbrev pub find : ℕ → ℕ → List ℕ → Option ℕ
find c from bs = find_at c from (drop from bs)

abbrev pub starts_with : List ℕ → List ℕ → Bool
starts_with [] bs = true
starts_with (p ∷ ps) [] = false
starts_with (p ∷ ps) (b ∷ bs) = p == b && starts_with ps bs

-- substr(from, count).
abbrev pub substr : ℕ → ℕ → List ℕ → List ℕ
substr from count bs = take count (drop from bs)

pub take-append : (front back : List ℕ) → take (length front) (front ++ back) ≡ front
take-append [] back = refl
take-append (c ∷ cs) back = ap (λ (bs : List ℕ). c ∷ bs) (take-append cs back)

abbrev pub free_of : ℕ → List ℕ → Bool
free_of c bs = all (λ b. not (b == c)) bs

-- Where a byte is first found: after a part without it.
pub find_at-split :
    (c at : ℕ) (bs : List ℕ) (i : ℕ)
    → find_at c at bs ≡ some i
    → (before after : List ℕ) × (bs ≡ before ++ c ∷ after)
      × (i ≡ at + length before)
      × (free_of c before ≡ true)
find_at-split c at [] i h = absurd (ground arith)
find_at-split c at (b ∷ bs) i h = elim (Bool-cases (b == c)) [
  | inl e ↦ ([], bs, ap (λ (x : ℕ). x ∷ bs) ((==_iff b c).0 e), ground (arith, e), refl)
  | inr e ↦
      let (before, after, parts, place, free) = find_at-split c (suc at) bs i (ground (arith, e)) in
      (b ∷ before, after, ap (λ (x : List ℕ). b ∷ x) parts, omega (arith, place), ground (arith, e))
]

pub find_at-found :
    (c at : ℕ) (before after : List ℕ)
    → free_of c before ≡ true
    → find_at c at (before ++ c ∷ after) ≡ some (at + length before)
find_at-found c at [] after h = ground arith
find_at-found c at (b ∷ before) after h = ground (arith, find_at-found c (suc at) before after)

pub drop-append : (xs ys : List ℕ) → drop (length xs) (xs ++ ys) ≡ ys
drop-append [] ys = refl
drop-append (x ∷ xs) ys = drop-append xs ys

pub drop-past :
    (n c : ℕ) (before after : List ℕ) → n ≡ length before + 1 → drop n (before ++ c ∷ after) ≡ after
drop-past zero c before after h = absurd (omega (arith, h))
drop-past (suc n) c [] after h = let e : n ≡ 0 = omega (arith, h) in rw e
drop-past (suc n) c (b ∷ before) after h = drop-past n c before after (omega (arith, h))

abbrev pub same_bytes : List ℕ → List ℕ → Bool
same_bytes [] [] = true
same_bytes [] (b ∷ bs) = false
same_bytes (a ∷ cs) [] = false
same_bytes (a ∷ cs) (b ∷ bs) = a == b && same_bytes cs bs

pub same_bytes_iff : (a b : List ℕ) → (same_bytes a b ≡ true) ↔ (a ≡ b)
same_bytes_iff [] [] = (λ h. refl, λ h. refl)
same_bytes_iff [] (y ∷ b) = (λ h. cc, λ h. cc)
same_bytes_iff (x ∷ a) [] = (λ h. cc, λ h. cc)
same_bytes_iff (x ∷ a) (y ∷ b) = ground (arith, ==_iff x y, same_bytes_iff a b)
