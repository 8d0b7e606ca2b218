-- ===== src/Base/Paging.antt =====
-- Pages of a list, and what holds of every row of a query's result.
use Prim.Native.Nat.{ℕ, zero, suc, ◌+◌, ◌*◌, ◌≤◌}
use mathlib.Core.Path.{◌≡◌, refl, ap, ◌∙◌}
use mathlib.Core.Logic.{inl, inr}
use mathlib.Core.Bool.{Bool, true}
use mathlib.Core.List.{List, [], ◌∷◌, ◌++◌, map}
use native.Mathlib.Omega.{arith}
use cppbackend_api.Base.Tests.{Bool-cases}
use cppbackend_api.Base.Lists.{length, take, drop, select, All}

module _ {ℓ} {A : Type ℓ} where
  take-nil : (k : ℕ) → take {A = A} k [] ≡ []
  take-nil zero = refl
  take-nil (suc k) = refl

  pub take-add : (n k : ℕ) (xs : List A) → take n xs ++ take k (drop n xs) ≡ take (n + k) xs
  take-add zero k xs = ap (λ (m : ℕ). take m xs) (omega arith)
  take-add (suc n) k [] = let e : suc n + k ≡ suc (n + k) = omega arith in rw e (take-nil k)
  take-add (suc n) k (x ∷ xs) =
      let e : suc n + k ≡ suc (n + k) = omega arith in
      rw e (ap (λ (ys : List A). x ∷ ys) (take-add n k xs))

  pub take-enough : (n : ℕ) (xs : List A) → length xs ≤ n → take n xs ≡ xs
  take-enough zero [] h = refl
  take-enough zero (x ∷ xs) h = absurd (omega (arith, h))
  take-enough (suc n) [] h = refl
  take-enough (suc n) (x ∷ xs) h =
      ap (λ (ys : List A). x ∷ ys) (take-enough n xs (omega (arith, h)))

  pub length-take : (n : ℕ) (xs : List A) → length (take n xs) ≤ n
  length-take zero xs = omega arith
  length-take (suc n) [] = omega arith
  length-take (suc n) (x ∷ xs) = omega (arith, length-take n xs)

  -- The first pages that a client asks for, joined: `ask` answers for an offset.
  abbrev pub first_pages : (ℕ → List A) → ℕ → ℕ → List A
  first_pages ask n zero = []
  first_pages ask n (suc k) = first_pages ask n k ++ ask (k * n)

  pub first_pages-take :
      (xs : List A) (n k : ℕ) → first_pages (λ at. take n (drop at xs)) n k ≡ take (k * n) xs
  first_pages-take xs n zero = let e : 0 * n ≡ 0 = omega arith in rw e refl
  first_pages-take xs n (suc k) =
      ap (λ (ys : List A). ys ++ take n (drop (k * n) xs)) (first_pages-take xs n k)
      ∙ (take-add (k * n) n xs ∙ ap (λ (m : ℕ). take m xs) (omega arith))

  module _ {κ} (P : A → Type κ) where
    pub All-take : (n : ℕ) (xs : List A) → All P xs → All P (take n xs)
    All-take zero xs h = tt
    All-take (suc n) [] h = tt
    All-take (suc n) (x ∷ xs) h = (h.0, All-take n xs h.1)

    pub All-drop : (n : ℕ) (xs : List A) → All P xs → All P (drop n xs)
    All-drop zero xs h = h
    All-drop (suc n) [] h = tt
    All-drop (suc n) (x ∷ xs) h = All-drop n xs h.1

    pub All-select :
        (p : A → Bool) (xs : List A) → ((x : A) → p x ≡ true → P x) → All P (select p xs)
    All-select p [] h = tt
    All-select p (x ∷ xs) h = elim (Bool-cases (p x)) [
      | inl e ↦ rw e (h x e, All-select p xs h)
      | inr e ↦ rw e (All-select p xs h)
    ]

module _ {ℓ κ} {A : Type ℓ} {B : Type κ} (f : A → B) where
  pub map-take : (n : ℕ) (xs : List A) → map f (take n xs) ≡ take n (map f xs)
  map-take zero xs = refl
  map-take (suc n) [] = refl
  map-take (suc n) (x ∷ xs) = ap (λ (ys : List B). f x ∷ ys) (map-take n xs)

  pub map-drop : (n : ℕ) (xs : List A) → map f (drop n xs) ≡ drop n (map f xs)
  map-drop zero xs = refl
  map-drop (suc n) [] = refl
  map-drop (suc n) (x ∷ xs) = map-drop n xs

  pub length-map : (xs : List A) → length (map f xs) ≡ length xs
  length-map [] = refl
  length-map (x ∷ xs) = ap suc (length-map xs)

  pub All-map {ℓ'} : (P : B → Type ℓ') (xs : List A) → All (λ x. P (f x)) xs → All P (map f xs)
  All-map P [] h = tt
  All-map P (x ∷ xs) h = (h.0, All-map P xs h.1)
