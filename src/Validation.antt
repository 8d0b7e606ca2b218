-- ===== src/Validation.antt =====
-- Application/src/Validation and Domain/src/Entities/Todo.cpp: validators collect every error.
pub mod Credentials
pub mod TodoFields
use cppbackend_api.Base.{ℕ, Bool, true, false, ◌&&◌, ◌||◌, List, [], ◌∷◌, String, ◌==◌, leb, all}
use cppbackend_api.Domain.Result.{Result, DomainError, ok, err}

-- `if (!errors.empty()) return err(…); return ok();`
abbrev pub reject_if_any : String → List String → Result (Unit {0})
reject_if_any message [] = ok tt
reject_if_any message (e ∷ es) =
    err (record { message = message; status_code = 400; details = e ∷ es })

-- One of the four bytes " \t\n\r".
abbrev pub is_blank : ℕ → Bool
is_blank c = c == 32 || c == 9 || c == 10 || c == 13

-- std::isspace in the "C" locale: also the vertical tab and the form feed.
abbrev pub is_space : ℕ → Bool
is_space c = c == 32 || leb 9 c && leb c 13
