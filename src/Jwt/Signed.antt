-- ===== src/Jwt/Signed.antt =====
-- What a successful step of the validation establishes, and how a token splits.
use cppbackend_api.Base.{
  ℕ, suc, ◌+◌, ◌-◌, ◌≡◌, refl, sym, ap, ◌∙◌, Bool, true, false, inl, inr, Option, none, some, List,
  [], ◌∷◌, ◌++◌, String, arith, Option-cases, find, find_at, drop, take, substr, free_of, length,
  find_at-split, find_at-found, drop-past, drop-add, take-append,
}
use cppbackend_api.Domain.Result.{ok, err}
use cppbackend_api.Jwt.{
  Checked, ◌>>=◌, succeed, ensure, given, or_throw, Segments, segments, segments_after,
  signing_input,
}

-- A successful bind.
pub >>=-succeeds :
    {A B : Type 0} (m : Checked A) (f : A → Checked B) {b : B}
    → (m >>= f) ≡ succeed b
    → (a : A) × (m ≡ succeed a) × (f a ≡ succeed b)
>>=-succeeds none f h = cc
>>=-succeeds (some (err e)) f h = cc
>>=-succeeds (some (ok a)) f h = (a, refl, h)

pub ensure-succeeds :
    (b : Bool) (message detail : String) {u : Unit {0}}
    → ensure b message detail ≡ succeed u
    → b ≡ true
ensure-succeeds true message detail h = refl
ensure-succeeds false message detail h = cc

pub given-succeeds :
    {A : Type 0} (o : Option A) (message detail : String) {a : A}
    → given o message detail ≡ succeed a
    → o ≡ some a
given-succeeds none message detail h = cc
given-succeeds (some a) message detail h = cc

pub or_throw-succeeds : {A : Type 0} (o : Option A) {a : A} → or_throw o ≡ succeed a → o ≡ some a
or_throw-succeeds none h = cc
or_throw-succeeds (some a) h = cc

-- A token of three segments.
pub record Splits (token : List ℕ) (s : Segments) : Type 0 where
  pub parts : token ≡ signing_input s.header s.payload ++ (b'.' ∷ s.signature)
  pub header_free : free_of b'.' s.header ≡ true
  pub payload_free : free_of b'.' s.payload ≡ true

find_at-free : (c at : ℕ) (bs : List ℕ) → free_of c bs ≡ true → find_at c at bs ≡ none
find_at-free c at [] h = refl
find_at-free c at (b ∷ bs) h = ground (arith, find_at-free c (suc at) bs)

pub append_assoc : (a b c : List ℕ) → (a ++ b) ++ c ≡ a ++ (b ++ c)
append_assoc [] b c = refl
append_assoc (x ∷ a) b c = ap (λ (xs : List ℕ). x ∷ xs) (append_assoc a b c)

-- The cuts at the two dots.
module _ (h p s : List ℕ) where
  abbrev pub token_of : List ℕ
  token_of = h ++ (b'.' ∷ (p ++ (b'.' ∷ s)))

  first_cut : drop (length h + 1) token_of ≡ p ++ (b'.' ∷ s)
  first_cut = drop-past (length h + 1) b'.' h (p ++ (b'.' ∷ s)) refl

  second_cut : drop (length h + 1 + length p + 1) token_of ≡ s
  second_cut =
      let e : length h + 1 + length p + 1 ≡ (length h + 1) + (length p + 1) = omega arith in
      rw e (
        drop-add (length h + 1) (length p + 1) token_of
        ∙ ap (drop (length p + 1)) first_cut
        ∙ drop-past (length p + 1) b'.' p s refl)

  pub middle : substr (length h + 1) (length h + 1 + length p - (length h + 1)) token_of ≡ p
  middle =
      let e : length h + 1 + length p - (length h + 1) ≡ length p = omega arith in
      rw e (ap (take (length p)) first_cut ∙ take-append p (b'.' ∷ s))

  pub first_dot : free_of b'.' h ≡ true → find b'.' 0 token_of ≡ some (length h)
  first_dot free =
      let e : 0 + length h ≡ length h = omega arith in
      find_at-found b'.' 0 h (p ++ (b'.' ∷ s)) free ∙ ap some e

  second_dot :
      free_of b'.' p ≡ true → find b'.' (length h + 1) token_of ≡ some (length h + 1 + length p)
  second_dot free =
      ap (find_at b'.' (length h + 1)) first_cut ∙ find_at-found b'.' (length h + 1) p s free

  pub cut_segments :
      free_of b'.' h ≡ true
      → free_of b'.' p ≡ true
      → free_of b'.' s ≡ true
      → segments token_of ≡ succeed (record { header = h; payload = p; signature = s })
  unfolding segments segments_after
  cut_segments h_free p_free s_free =
      let last : find b'.' (length h + 1 + length p + 1) token_of ≡ none =
        ap (find_at b'.' (length h + 1 + length p + 1)) second_cut
        ∙ find_at-free b'.' (length h + 1 + length p + 1) s s_free in
      rw (first_dot h_free, segments)
        (rw (second_dot p_free, segments_after)
          (rw (last, segments_after)
            (cc (take-append h (b'.' ∷ (p ++ (b'.' ∷ s))), middle, second_cut))))

cuts_of :
    (token : List ℕ) (first second : ℕ) (s : Segments)
    → find b'.' (first + 1) token ≡ some second
    → segments_after token first ≡ succeed s
    → (s.header ≡ take first token)
      × (s.payload ≡ substr (first + 1) (second - (first + 1)) token)
      × (s.signature ≡ drop (second + 1) token)
unfolding segments_after
cuts_of token first second s found e = ground arith

step :
    (token : List ℕ) (first : ℕ) (s : Segments)
    → find b'.' 0 token ≡ some first
    → segments token ≡ succeed s
    → segments_after token first ≡ succeed s
unfolding segments
step token first s found e = ground arith

segments_after-Splits :
    (token h rest : List ℕ) (s : Segments)
    → token ≡ h ++ (b'.' ∷ rest)
    → free_of b'.' h ≡ true
    → segments_after token (length h) ≡ succeed s
    → Splits token s
unfolding segments_after
segments_after-Splits token h rest s parts h_free e =
    let at = length h + 1 in
    let cut : drop at token ≡ rest = ap (drop at) parts ∙ drop-past at b'.' h rest refl in
    elim (Option-cases (find b'.' at token)) [
      | inl missing ↦ absurd (ground arith)
      | inr (second, found) ↦
          let (p, sg, split, place, p_free) =
            find_at-split b'.' at rest second (sym (ap (find_at b'.' at) cut) ∙ found) in
          let whole : token ≡ token_of h p sg =
            parts ∙ ap (λ (r : List ℕ). h ++ (b'.' ∷ r)) split in
          let found' : find b'.' at token ≡ some (at + length p) =
            found ∙ ap (λ (i : ℕ). some i) place in
          let cuts = cuts_of token (length h) (at + length p) s found' e in
          let hd : s.header ≡ h =
            cuts.0 ∙ ap (take (length h)) whole ∙ take-append h (b'.' ∷ (p ++ (b'.' ∷ sg))) in
          let pl : s.payload ≡ p =
            cuts.1 ∙ ap (substr at (at + length p - at)) whole ∙ middle h p sg in
          let st : s.signature ≡ sg =
            cuts.2 ∙ ap (drop (at + length p + 1)) whole ∙ second_cut h p sg in
          record {
            parts = whole ∙ cc (hd, pl, st, append_assoc h (b'.' ∷ p) (b'.' ∷ sg));
            header_free = ap (free_of b'.') hd ∙ h_free;
            payload_free = ap (free_of b'.') pl ∙ p_free;
          }
    ]

pub segments-Splits : (token : List ℕ) (s : Segments) → segments token ≡ succeed s → Splits token s
unfolding segments
segments-Splits token s e = elim (Option-cases (find b'.' 0 token)) [
  | inl missing ↦ absurd (ground arith)
  | inr (first, found) ↦
      let (h, rest, parts, place, free) = find_at-split b'.' 0 token first found in
      segments_after-Splits token h rest s parts free
        (ap (segments_after token) (sym (place ∙ omega arith)) ∙ step token first s found e)
]
