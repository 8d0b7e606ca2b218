-- ===== src/Env/Trim.antt =====
-- What `trim` leaves of a text.
use cppbackend_api.Base.{
  ℕ, suc, ◌+◌, ◌-◌, ◌≡◌, refl, ap, ◌∙◌, Bool, true, false, not, ◌&&◌, inl, inr, Option, none, some,
  [], ◌∷◌, ◌++◌, arith, all, if◌then◌else◌, take, Bool-cases,
}
use cppbackend_api.Validation.{is_blank}
use cppbackend_api.Env.{Text, find_first_not_blank, find_last_not_blank, trim_between, trim}

-- Without the blanks at the end, and without those at both ends.
abbrev rstrip : Text → Text
rstrip [] = []
rstrip (b ∷ bs) = if all is_blank (b ∷ bs) then [] else b ∷ rstrip bs

abbrev strip : Text → Text
strip [] = []
strip (b ∷ bs) = if is_blank b then strip bs else rstrip (b ∷ bs)

abbrev next : Option ℕ → Option ℕ
next none = none
next (some i) = some (suc i)

find_first-suc :
    (at : ℕ) (s : Text) → find_first_not_blank (suc at) s ≡ next (find_first_not_blank at s)
find_first-suc at [] = refl
find_first-suc at (b ∷ bs) = ground (arith, find_first-suc (suc at) bs)

find_last-suc :
    (at : ℕ) (s : Text) → find_last_not_blank (suc at) s ≡ next (find_last_not_blank at s)
find_last-suc at [] = refl
find_last-suc at (b ∷ bs) = ground (arith, find_last-suc (suc at) bs)

-- A text of blanks has no last one that is none, and the other way round.
find_last-all : (at : ℕ) (s : Text) → all is_blank s ≡ true → find_last_not_blank at s ≡ none
find_last-all at [] h = refl
find_last-all at (b ∷ bs) h = ground (arith, find_last-all (suc at) bs)

rstrip-all : (s : Text) → all is_blank s ≡ true → rstrip s ≡ []
rstrip-all [] h = refl
rstrip-all (b ∷ bs) h = rw h

and_false : (p q : Bool) → q ≡ false → (p && q) ≡ false
and_false p q h = ground arith

last_kept :
    (b k : ℕ) (bs : Text)
    → all is_blank bs ≡ false
    → take (k + 1) bs ≡ rstrip bs
    → take (k + 1 + 1) (b ∷ bs) ≡ rstrip (b ∷ bs)
last_kept b k bs rest taken =
    let e : k + 1 + 1 ≡ suc (k + 1) = omega arith in
    rw e (rw (and_false (is_blank b) (all is_blank bs) rest) (ap (λ (t : Text). b ∷ t) taken))

find_last-some :
    (at : ℕ) (s : Text)
    → all is_blank s ≡ false
    → (k : ℕ) × (find_last_not_blank at s ≡ some (at + k)) × (take (k + 1) s ≡ rstrip s)
find_last-some at [] h = absurd (cc h)
find_last-some at (b ∷ bs) h = elim (Bool-cases (all is_blank bs)) [
  | inl rest ↦
      (0, ground (arith, find_last-all (suc at) bs rest), ground (arith, rstrip-all bs rest))
  | inr rest ↦
      let (k, found, taken) = find_last-some (suc at) bs rest in
      (k + 1, ground (arith, found), last_kept b k bs rest taken)
]

between-next :
    (b : ℕ) (bs : Text) (f l : Option ℕ)
    → trim_between (b ∷ bs) (next f) (next l) ≡ trim_between bs f l
between-next b bs none l = refl
between-next b bs (some i) none = refl
between-next b bs (some i) (some j) = let e : suc j - suc i + 1 ≡ j - i + 1 = omega arith in rw e

trim-blank : (b : ℕ) (bs : Text) → is_blank b ≡ true → trim (b ∷ bs) ≡ trim bs
unfolding trim
trim-blank b bs h =
    let f = find_first_not_blank 0 bs in
    let l = find_last_not_blank 0 bs in
    let first : find_first_not_blank 0 (b ∷ bs) ≡ next f = rw h (find_first-suc 0 bs) in
    let last : find_last_not_blank 0 (b ∷ bs) ≡ next l = ground (arith, find_last-suc 0 bs) in
    rw first (rw last (between-next b bs f l))

trim-nil : trim [] ≡ []
unfolding trim
trim-nil = refl

trim-kept : (b : ℕ) (bs : Text) → is_blank b ≡ false → trim (b ∷ bs) ≡ strip (b ∷ bs)
unfolding trim
trim-kept b bs e =
    let some_left : all is_blank (b ∷ bs) ≡ false = rw e in
    let (k, found, taken) = find_last-some 0 (b ∷ bs) some_left in
    let first : find_first_not_blank 0 (b ∷ bs) ≡ some 0 = rw e in
    let place : 0 + k - 0 + 1 ≡ k + 1 = omega arith in
    ap (trim_between (b ∷ bs) (find_first_not_blank 0 (b ∷ bs))) found
    ∙ ap (λ (f : Option ℕ). trim_between (b ∷ bs) f (some (0 + k))) first
    ∙ ap (λ (n : ℕ). take n (b ∷ bs)) place
    ∙ taken
    ∙ rw e

trim-strip : (s : Text) → trim s ≡ strip s
trim-strip [] = trim-nil
trim-strip (b ∷ bs) = elim (Bool-cases (is_blank b)) [
  | inl e ↦ rw e (trim-blank b bs e ∙ trim-strip bs)
  | inr e ↦ trim-kept b bs e
]

rstrip-parts : (s : Text) → (after : Text) × (s ≡ rstrip s ++ after) × (all is_blank after ≡ true)
rstrip-parts [] = ([], refl, refl)
rstrip-parts (b ∷ bs) = elim (Bool-cases (all is_blank (b ∷ bs))) [
  | inl blank ↦ (b ∷ bs, rw blank, blank)
  | inr kept ↦
      let (after, parts, blank) = rstrip-parts bs in
      (after, rw kept (ap (λ (t : Text). b ∷ t) parts), blank)
]

strip-kept : (b : ℕ) (bs : Text) → is_blank b ≡ false → strip (b ∷ bs) ≡ rstrip (b ∷ bs)
strip-kept b bs e = rw e

strip-parts :
    (s : Text)
    → (before after : Text) × (s ≡ before ++ (strip s ++ after))
      × (all is_blank before ≡ true)
      × (all is_blank after ≡ true)
strip-parts [] = ([], [], refl, refl, refl)
strip-parts (b ∷ bs) = elim (Bool-cases (is_blank b)) [
  | inl e ↦
      let (before, after, parts, front, end) = strip-parts bs in
      (b ∷ before, after, rw e (ap (λ (t : Text). b ∷ t) parts), rw e front, end)
  | inr e ↦
      let (after, parts, end) = rstrip-parts (b ∷ bs) in
      ([], after, rw (strip-kept b bs e) parts, refl, end)
]

abbrev last_of : ℕ → Text → ℕ
last_of b [] = b
last_of b (c ∷ cs) = last_of c cs

-- Neither end is a blank.
abbrev pub is_tight : Text → Bool
is_tight [] = true
is_tight (b ∷ bs) = not (is_blank b) && not (is_blank (last_of b bs))

rstrip-last :
    (b : ℕ) (bs : Text) → all is_blank (b ∷ bs) ≡ false → is_blank (last_of b (rstrip bs)) ≡ false
rstrip-last b [] h = ground (arith, h)
rstrip-last b (c ∷ cs) h = elim (Bool-cases (all is_blank (c ∷ cs))) [
  | inl blank ↦ rw blank (ground (arith, h))
  | inr kept ↦ rw kept (rstrip-last c cs kept)
]

strip-is_tight : (s : Text) → is_tight (strip s) ≡ true
strip-is_tight [] = refl
strip-is_tight (b ∷ bs) = elim (Bool-cases (is_blank b)) [
  | inl e ↦ rw e (strip-is_tight bs)
  | inr e ↦
      let kept : all is_blank (b ∷ bs) ≡ false = rw e in
      let end = rstrip-last b bs kept in rw (strip-kept b bs e) (rw e (rw e (rw end)))
]

-- Trimming takes blanks off both ends and nothing else, and no blank is left at an end.
pub trim_lem :
    (s : Text)
    → (before after : Text) × (s ≡ before ++ (trim s ++ after))
      × (all is_blank before ≡ true)
      × (all is_blank after ≡ true)
      × (is_tight (trim s) ≡ true)
trim_lem s =
    let (before, after, parts, front, end) = strip-parts s in
    (before, after, rw (trim-strip s) parts, front, end, rw (trim-strip s) (strip-is_tight s))
