-- ===== src/Validation/Credentials.antt =====
-- Application/src/Validation/AuthInputValidator.cpp.
pub mod Email
pub mod Accepted
use cppbackend_api.Base.{
  ℕ, zero, suc, ◌+◌, ◌-◌, Bool, false, not, ◌&&◌, ◌||◌, Option, none, some, List, [], ◌∷◌, ◌++◌,
  String, str_eq, if◌then◌else◌, ltb, ◌==◌, is_empty, bytes, size, length, all, find, find_at, drop,
}
use cppbackend_api.Domain.Result.{Result}
use cppbackend_api.Validation.{reject_if_any, is_blank}

pub record RegisterRequest : Type 0 where
  pub email : String
  pub password : String
  pub role : String

pub record LoginRequest : Type 0 where
  pub email : String
  pub password : String

pub record RefreshTokenRequest : Type 0 where
  pub refresh_token : String

unfoldable pub is_all_whitespace : String → Bool
is_all_whitespace s = all is_blank (bytes s)

-- The part after the '@', which stands at position `at`.
abbrev pub is_valid_domain : List ℕ → ℕ → Bool
is_valid_domain email at = elim (find b'.' (at + 1) email) [
  | none ↦ false
  | some dot ↦ not (dot == at + 1) && not (dot == length email - 1)
]

-- `email` holds at least three bytes where `email.size() - 1` is computed.
unfoldable pub is_valid_email : String → Bool
is_valid_email s =
    let email = bytes s in
    if ltb (length email) 3 || ltb 255 (length email) then false else elim (find b'@' 0 email) [
      | none ↦ false
      | some at ↦ if at == 0 || at == length email - 1 then false else is_valid_domain email at
    ]

abbrev pub email_errors : String → List String
email_errors email =
    if is_all_whitespace email
    then "Field 'email' is required and cannot be empty." ∷ []
    else if is_valid_email email
    then []
    else "Field 'email' must be a valid email address (e.g. user@example.com)." ∷ []

abbrev pub password_errors : String → List String
password_errors password =
    if is_empty password
    then "Field 'password' is required." ∷ []
    else if ltb (size password) 8
    then "Field 'password' must be at least 8 characters long." ∷ []
    else if ltb 128 (size password)
    then "Field 'password' must not exceed 128 characters." ∷ []
    else []

abbrev pub role_errors : String → List String
role_errors role =
    if not (is_empty role) && not (str_eq role "user") && not (str_eq role "admin")
    then "Field 'role' must be either 'user' or 'admin'." ∷ []
    else []

unfoldable pub validate_register : RegisterRequest → Result (Unit {0})
validate_register req =
    reject_if_any "Validation failed for RegisterRequest"
      (email_errors req.email ++ (password_errors req.password ++ role_errors req.role))

unfoldable pub validate_login : LoginRequest → Result (Unit {0})
validate_login req = reject_if_any "Validation failed for LoginRequest" (
    (if is_all_whitespace req.email then "Field 'email' is required." ∷ [] else [])
    ++ (if is_empty req.password then "Field 'password' is required." ∷ [] else []))

unfoldable pub validate_refresh_token : RefreshTokenRequest → Result (Unit {0})
validate_refresh_token req =
    reject_if_any "Validation failed for RefreshTokenRequest"
      (if is_all_whitespace req.refresh_token then "Field 'refreshToken' is required." ∷ [] else [])
