-- ===== src/Validation/Credentials/Accepted.antt =====
-- What `validateRegister`, `validateLogin` and `validateRefreshToken` accept.
use cppbackend_api.Base.{
  ℕ, ◌≤◌, ◌≡◌, ◌⊎◌, ◌↔◌, refl, true, false, List, [], ◌∷◌, ◌++◌, String, eq_iff, is_empty, size,
  bytes, all, arith,
}
use cppbackend_api.Domain.Result.{ok}
use cppbackend_api.Validation.{is_blank, reject_if_any}
use cppbackend_api.Validation.Credentials.{
  RegisterRequest, is_all_whitespace, email_errors, password_errors, role_errors, validate_register,
  validate_login,
}
use cppbackend_api.Validation.Credentials.Email.{Address, is_valid_email_iff}

password_errors-none :
    (password : String)
    → (password_errors password ≡ []) ↔ ((8 ≤ size password) × (size password ≤ 128))
password_errors-none Prim.Native.String.[] = ground arith
password_errors-none (Prim.Native.String.◌∷◌ c s) = ground arith

is_empty_iff : (s : String) → (is_empty s ≡ true) ↔ (s ≡ "")
is_empty_iff Prim.Native.String.[] = ((λ _. refl), λ _. refl)
is_empty_iff (Prim.Native.String.◌∷◌ c s) = ((λ h. absurd (ground arith)), λ h. absurd (cc h))

abbrev pub IsRole : String → Type 0
IsRole role = (role ≡ "") ⊎ (role ≡ "user") ⊎ (role ≡ "admin")

role_errors-none : (role : String) → (role_errors role ≡ []) ↔ IsRole role
role_errors-none role = ground (arith, is_empty_iff role, eq_iff role "user", eq_iff role "admin")

all_blank-with_at : (before after : List ℕ) → all is_blank (before ++ b'@' ∷ after) ≡ false
all_blank-with_at [] after = refl
all_blank-with_at (b ∷ before) after = ground (arith, all_blank-with_at before after)

is_all_whitespace-Address : (s : String) → Address (bytes s) → is_all_whitespace s ≡ false
unfolding is_all_whitespace
is_all_whitespace-Address s a = rw a.parts (all_blank-with_at a.local (a.host ++ b'.' ∷ a.rest))

email_errors-none : (email : String) → (email_errors email ≡ []) ↔ Address (bytes email)
email_errors-none email = (
  (λ h. (is_valid_email_iff email).0 (ground arith)),
  λ a. rw (is_all_whitespace-Address email a, (is_valid_email_iff email).1 a) refl,
)

reject_if_any-three :
    (message : String) (xs ys zs : List String)
    → (reject_if_any message (xs ++ (ys ++ zs)) ≡ ok tt) ↔ ((xs ≡ []) × (ys ≡ []) × (zs ≡ []))
reject_if_any-three message [] [] [] = ground arith
reject_if_any-three message [] [] (z ∷ zs) = ground arith
reject_if_any-three message [] (y ∷ ys) zs = ground arith
reject_if_any-three message (x ∷ xs) ys zs = ground arith

pub validate_register_iff :
    (req : RegisterRequest)
    → (validate_register req ≡ ok tt) ↔ (
        Address (bytes req.email)
        × (8 ≤ size req.password)
        × (size req.password ≤ 128)
        × IsRole req.role)
unfolding validate_register
validate_register_iff req =
    let three =
      reject_if_any-three "Validation failed for RegisterRequest" (email_errors req.email)
        (password_errors req.password) (role_errors req.role) in
    (
      (λ h.
          let (email, password, role) = three.0 h in
          let (long, short) = (password_errors-none req.password).0 password in
          ((email_errors-none req.email).0 email, long, short, (role_errors-none req.role).0 role)),
      λ (email, long, short, role). three.1 (
        (email_errors-none req.email).1 email,
        (password_errors-none req.password).1 (long, short),
        (role_errors-none req.role).1 role,
      ),
    )

is_empty-long : (s : String) → 8 ≤ size s → is_empty s ≡ false
is_empty-long Prim.Native.String.[] h = absurd (ground arith)
is_empty-long (Prim.Native.String.◌∷◌ c s) h = refl

-- What was valid as a registration is valid as a login.
pub validate_register-validate_login :
    (req : RegisterRequest)
    → validate_register req ≡ ok tt
    → validate_login (record { email = req.email; password = req.password }) ≡ ok tt
unfolding validate_login
validate_register-validate_login req h =
    let (email, long, _, _) = (validate_register_iff req).0 h in
    rw (is_all_whitespace-Address req.email email, is_empty-long req.password long) refl
