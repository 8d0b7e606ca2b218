-- ===== src/Auth/Register/RoundTrip.antt =====
-- Who has registered can log in.
use cppbackend_api.Db.Users.{same_email, same_lower, lower_byte}
use cppbackend_api.Base.{
  bytes, ℕ, ==_iff, eq_iff, Bool-cases, sym, ◌≡◌, refl, sym, ap, ◌∙◌, true, false, inl, inr, some,
  List, [], ◌∷◌, ◌++◌, String, str_eq, eq_refl, is_empty, arith, find_first, any,
}
use cppbackend_api.Domain.Result.{ok, ApiResponse, is_ok}
use cppbackend_api.Domain.Entities.{User}
use cppbackend_api.Validation.Credentials.{RegisterRequest}
use cppbackend_api.Validation.Credentials.Accepted.{validate_register-validate_login}
use cppbackend_api.Db.{Db, commits}
use cppbackend_api.Auth.{Services, Call}
use cppbackend_api.Auth.Login.{login}
use cppbackend_api.Auth.Login.Soundness.{has_email}
use cppbackend_api.Auth.Login.Completeness.{login_succeeds}
use cppbackend_api.Auth.Register.{RegisterResponse, register_user}
use cppbackend_api.Auth.Register.Effects.{register_user_sound, stored_user}

same_lower_refl : (bs : List ℕ) → same_lower bs bs ≡ true
same_lower_refl [] = refl
same_lower_refl (b ∷ bs) = ground (arith, ==_iff (lower_byte b) (lower_byte b), same_lower_refl bs)

-- An email that no row has in any case is no row's email.
same_email-other :
    (email : String) (r : User) → same_email email r ≡ false → str_eq r.email email ≡ false
same_email-other email r h = elim (Bool-cases (str_eq r.email email)) [
  | inr e ↦ e
  | inl e ↦
      let same : r.email ≡ email = (eq_iff r.email email).0 e in
      absurd (
        ground (
          arith,
          h,
          sym (ap (λ (s : String). same_lower (bytes s) (bytes email)) same),
          same_lower_refl (bytes email),
        ))
]

find_first-appended :
    (email : String) (u : User) (rows : List User)
    → any (same_email email) rows ≡ false
    → str_eq u.email email ≡ true
    → find_first (has_email email) (rows ++ u ∷ []) ≡ some u
find_first-appended email u [] h e = ground (arith, e)
find_first-appended email u (r ∷ rows) h e =
    ground (arith, same_email-other email r, find_first-appended email u rows)

-- A registration that succeeds and commits can be followed by a login with its email and password,
-- which succeeds: where the hasher accepts the password for its own hash, which is not empty, the
-- login's look-up and insertion commit, the jti it draws is new and the session id is not empty.
pub register_then_login :
    (svc : Services) (c c2 : Call) (db db' : Db) (req : RegisterRequest) (device client : String)
    (resp : ApiResponse RegisterResponse)
    → register_user svc c db req ≡ (ok resp, db')
    → c.outcome 1 ≡ commits
    → svc.verify_password req.password (svc.hash_password req.password) ≡ true
    → is_empty (svc.hash_password req.password) ≡ false
    → c2.outcome 0 ≡ commits
    → c2.outcome 6 ≡ commits
    → any (λ q. str_eq q.jti c2.drawn_jti) db'.sessions ≡ false
    → is_empty c2.drawn_session_id ≡ false
    → is_ok
        (login svc c2 db' (record { email = req.email; password = req.password }) device client).0
      ≡ true
register_then_login svc c c2 db db' req device client resp h commit verifies some_hash look insert
      new_jti named =
    let (valid, fresh, _, outcome) = register_user_sound svc c db db' req resp h in
    elim outcome [
      | inr (undone, _) ↦ absurd (cc (sym commit ∙ undone))
      | inl (_, stored) ↦
          login_succeeds svc c2 db' (record { email = req.email; password = req.password }) device
            client (stored_user svc c req) (svc.hash_password req.password)
            (validate_register-validate_login req valid) look insert
            (ap (find_first (has_email req.email)) stored
              ∙ find_first-appended req.email (stored_user svc c req) db.users fresh
                  (eq_refl req.email))
            refl refl some_hash verifies new_jti named
    ]
