-- ===== src/Examples/Login.antt =====
-- Logins on the example tables.
use cppbackend_api.Base.{
  ℕ, ◌≡◌, ◌≢◌, ◌⊎◌, refl, true, some, [], ◌∷◌, ◌++◌, String, str_eq, find_first, update_where,
}
use cppbackend_api.Domain.Result.{ok, err, fail_with, ApiResponse, respond}
use cppbackend_api.Domain.Entities.{User}
use cppbackend_api.Validation.Credentials.{LoginRequest, validate_login}
use cppbackend_api.Db.{Db, commits, rolled_back}
use cppbackend_api.Db.Users.{map_user_row}
use cppbackend_api.Auth.{TokenResponse, token_response}
use cppbackend_api.Auth.Expected.{signed_in, week_session}
use cppbackend_api.Auth.Login.{login, account_locked}
use cppbackend_api.Auth.Login.Soundness.{has_email, login_sound, login_stored}
use cppbackend_api.Auth.Login.Lockout.{
  login-ne-locked, login_wrong_password, failed_row, failure_logs,
}
use cppbackend_api.Examples.{program, svc, c, alice, db}

abbrev req : LoginRequest
req = record { email = "alice@b.co"; password = "secret123" }

abbrev wrong : LoginRequest
wrong = record { email = "alice@b.co"; password = "secret124" }

abbrev db' : Db
db' = (login svc c db req "laptop" "browser").1

abbrev resp : ApiResponse TokenResponse
resp =
    respond (token_response "jwt.jti-a" "token-a" "session-a" (map_user_row 1000 alice))
      "Login successful" 200 1000

logged_in : login svc c db req "laptop" "browser" ≡ (ok resp, db')
unfolding program
logged_in = refl

login_sound_example :
    (r : User) × (hash : String) × (sid : String) × (find_first (has_email req.email) db.users
      ≡ some r)
    × (r.is_active ≡ true)
    × (r.password_hash ≡ some hash)
    × (svc.verify_password req.password hash ≡ true)
    × (resp ≡ signed_in svc c sid (map_user_row c.now r) "Login successful")
login_sound_example = login_sound svc c db db' req "laptop" "browser" resp logged_in

login_stored_example :
    (r : User) × (find_first (has_email req.email) db.users ≡ some r)
    × (((c.outcome 6 ≡ commits)
          × (db'.sessions ≡ db.sessions ++ week_session svc c r "laptop" "browser" ∷ []))
        ⊎ ((c.outcome 6 ≡ rolled_back) × (db'.sessions ≡ db.sessions)))
login_stored_example = login_stored svc c db db' req "laptop" "browser" resp logged_in

login-ne-locked_example : (login svc c db req "laptop" "browser").0 ≢ err account_locked
login-ne-locked_example = login-ne-locked svc c db req "laptop" "browser"

all_commit : (n : ℕ) → c.outcome n ≡ commits
all_commit n = refl

tests :
    (find_first (has_email req.email) db.users ≡ some alice)
    × (validate_login req ≡ ok tt)
    × (validate_login wrong ≡ ok tt)
unfolding program
tests = (refl, refl, refl)

login_wrong_password_example :
    let after = login svc c db wrong "laptop" "browser" in
    (after.0 ≡ err (fail_with 401 "Authentication failed" "Invalid email or password."))
    × (after.1.users
        ≡ update_where
            (λ u. str_eq u.id alice.id)
            (failed_row c.now alice.failed_login_attempts)
            db.users)
    × (after.1.audit ≡ db.audit ++ failure_logs c alice.id alice.failed_login_attempts)
    × (after.1.sessions ≡ db.sessions)
login_wrong_password_example =
    login_wrong_password c all_commit svc db wrong "laptop" "browser" alice "h:secret123" tests.2
      tests.0 refl refl refl refl
