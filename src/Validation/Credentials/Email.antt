-- ===== src/Validation/Credentials/Email.antt =====
-- `isValidEmail` against a description of the addresses that it accepts.
use cppbackend_api.Base.{
  ℕ, ◌+◌, ◌-◌, ◌≤◌, ◌≡◌, ◌≢◌, ◌↔◌, refl, sym, ap, ◌∙◌, true, inl, inr, some, List, ◌∷◌, ◌++◌,
  String, arith, length, length-append, bytes, find_at, drop, find, free_of, find_at-split,
  find_at-found, drop-past, Option-cases,
}
use cppbackend_api.Validation.Credentials.{is_valid_email}

-- An address: a local part without '@', then '@', a host without '.', a '.', and a rest, none of
-- them empty, in at most 255 bytes.
pub record Address (email : List ℕ) : Type 0 where
  pub local : List ℕ
  pub host : List ℕ
  pub rest : List ℕ
  pub parts : email ≡ local ++ b'@' ∷ (host ++ b'.' ∷ rest)
  pub local_free : free_of b'@' local ≡ true
  pub host_free : free_of b'.' host ≡ true
  pub local_given : 1 ≤ length local
  pub host_given : 1 ≤ length host
  pub rest_given : 1 ≤ length rest
  pub short : length email ≤ 255

length-parts :
    (a b : ℕ) (local host rest : List ℕ)
    → length (local ++ a ∷ (host ++ b ∷ rest)) ≡ length local + length host + length rest + 2
length-parts a b local host rest =
    omega (arith, length-append local (a ∷ (host ++ b ∷ rest)), length-append host (b ∷ rest))

-- What the checks on the positions of '@' and '.' say of the parts around them.
Address-of_positions :
    (email : List ℕ) (at dot : ℕ)
    → length email ≤ 255
    → find b'@' 0 email ≡ some at
    → find b'.' (at + 1) email ≡ some dot
    → at ≢ 0
    → dot ≢ at + 1
    → dot ≢ length email - 1
    → Address email
Address-of_positions email at dot short e e' inside past before_end =
    let (local, tail, split_at, place, local_free) = find_at-split b'@' 0 email at e in
    let begin : drop (at + 1) email ≡ tail =
      ap (drop (at + 1)) split_at ∙ drop-past (at + 1) b'@' local tail (omega (arith, place)) in
    let (host, rest, split_dot, dot_place, host_free) =
      find_at-split b'.' (at + 1) (drop (at + 1) email) dot e' in
    let parts : email ≡ local ++ b'@' ∷ (host ++ b'.' ∷ rest) =
      split_at ∙ ap (λ (x : List ℕ). local ++ b'@' ∷ x) (sym begin ∙ split_dot) in
    let total : length email ≡ length local + length host + length rest + 2 =
      ap length parts ∙ length-parts b'@' b'.' local host rest in
    record {
      local = local;
      host = host;
      rest = rest;
      parts = parts;
      local_free = local_free;
      host_free = host_free;
      local_given = ground (arith, place);
      host_given = ground (arith, dot_place);
      rest_given = ground (arith, dot_place, place, total);
      short = short;
    }

-- An accepted email is an address.
is_valid_email-Address : (s : String) → is_valid_email s ≡ true → Address (bytes s)
unfolding is_valid_email
is_valid_email-Address s h = elim (Option-cases (find b'@' 0 (bytes s))) [
  | inl e ↦ absurd (ground arith)
  | inr (at, e) ↦ elim (Option-cases (find b'.' (at + 1) (bytes s))) [
    | inl e' ↦ absurd (ground arith)
    | inr (dot, e') ↦
        Address-of_positions (bytes s) at dot (ground arith) e e' (ground arith) (ground arith)
          (ground arith)
  ]
]

-- And an address is accepted.
Address-is_valid_email : (s : String) → Address (bytes s) → is_valid_email s ≡ true
unfolding is_valid_email
Address-is_valid_email s a =
    let email : List ℕ = bytes s in
    let total : length email ≡ length a.local + length a.host + length a.rest + 2 =
      ap length a.parts ∙ length-parts b'@' b'.' a.local a.host a.rest in
    let tail : List ℕ = a.host ++ b'.' ∷ a.rest in
    let from_start : 0 + length a.local ≡ length a.local = omega arith in
    let e : find b'@' 0 email ≡ some (length a.local) =
      ap (find b'@' 0) a.parts
      ∙ find_at-found b'@' 0 a.local tail a.local_free
      ∙ ap (λ (x : ℕ). some x) from_start in
    let begin : drop (length a.local + 1) email ≡ tail =
      ap (drop (length a.local + 1)) a.parts ∙ drop-past _ b'@' a.local tail refl in
    let e' : find b'.' (length a.local + 1) email ≡ some (length a.local + 1 + length a.host) =
      ap (find_at b'.' (length a.local + 1)) begin
      ∙ find_at-found b'.' (length a.local + 1) a.host a.rest a.host_free in
    ground (arith, e, e', total, a.local_given, a.host_given, a.rest_given, a.short)

-- An email is accepted exactly when it is an address: a local part without '@', then '@', a host
-- without '.', a '.', and a rest, none of them empty, in at most 255 bytes.
pub is_valid_email_iff : (s : String) → (is_valid_email s ≡ true) ↔ Address (bytes s)
is_valid_email_iff s = (is_valid_email-Address s, Address-is_valid_email s)
