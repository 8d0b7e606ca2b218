-- ===== src/Examples/Accounts.antt =====
-- Registrations, passwords and validations on the example tables.
use cppbackend_api.Base.{
  ◌≡◌, ◌⊎◌, refl, true, false, none, some, [], ◌∷◌, ◌++◌, if◌then◌else◌, is_empty, any, str_eq,
}
use cppbackend_api.Domain.Result.{ok, ApiResponse, created, respond_void, is_ok}
use cppbackend_api.Validation.Credentials.{
  RegisterRequest, LoginRequest, validate_register, validate_login,
}
use cppbackend_api.Validation.TodoFields.{
  CreateTodoRequest, UpdateTodoRequest, is_all_space, validate_create,
}
use cppbackend_api.Db.{Db, commits, rolled_back}
use cppbackend_api.Db.Users.{same_email}
use cppbackend_api.Auth.Login.{login}
use cppbackend_api.Auth.Login.Completeness.{login_succeeds}
use cppbackend_api.Auth.Register.{RegisterResponse, register_user, set_password}
use cppbackend_api.Auth.Register.Effects.{
  stored_user, register_user_sound, unique_emails, register_user-keeps_unique_emails,
}
use cppbackend_api.Auth.Register.RoundTrip.{register_then_login}
use cppbackend_api.Examples.{program, svc, c, c2, alice, db}

abbrev req : RegisterRequest
req = record { email = "bob@b.co"; password = "hunter22"; role = "" }

abbrev taken : RegisterRequest
taken = record { email = "alice@b.co"; password = "hunter22"; role = "user" }

abbrev db' : Db
db' = (register_user svc c db req).1

abbrev resp : ApiResponse RegisterResponse
resp =
    created (record { id = "user-a"; email = "bob@b.co"; role = "user"; created_at = 1000 })
      "User registered successfully" 1000

registered : register_user svc c db req ≡ (ok resp, db')
unfolding program
registered = refl

register_user_sound_example :
    (validate_register req ≡ ok tt)
    × (any (same_email req.email) db.users ≡ false)
    × (resp
        ≡ created
            (record {
              id = c.drawn_user_id;
              email = req.email;
              role = if is_empty req.role then "user" else req.role;
              created_at = c.now;
            })
            "User registered successfully"
            c.now)
    × (((c.outcome 1 ≡ commits) × (db'.users ≡ db.users ++ stored_user svc c req ∷ []))
        ⊎ ((c.outcome 1 ≡ rolled_back) × (db'.users ≡ db.users)))
register_user_sound_example = register_user_sound svc c db db' req resp registered

taken_valid : validate_register taken ≡ ok tt
unfolding program
taken_valid = refl

register_user-keeps_unique_emails_example :
    unique_emails (register_user svc c db req).1.users ≡ true
register_user-keeps_unique_emails_example = register_user-keeps_unique_emails svc c db req refl

stored_sessions : db'.sessions ≡ db.sessions
unfolding program
stored_sessions = refl

new_jti : any (λ q. str_eq q.jti c2.drawn_jti) db'.sessions ≡ false
unfolding program
new_jti = refl

register_then_login_example :
    is_ok
      (login svc c2 db'
        (record { email = req.email; password = req.password })
        "laptop"
        "browser").0
    ≡ true
register_then_login_example =
    register_then_login svc c c2 db db' req "laptop" "browser" resp registered refl refl refl refl
      refl new_jti refl

abbrev credentials : LoginRequest
credentials = record { email = "alice@b.co"; password = "secret123" }

credentials_valid : validate_login credentials ≡ ok tt
unfolding program
credentials_valid = refl

login_succeeds_example : is_ok (login svc c2 db credentials "laptop" "browser").0 ≡ true
login_succeeds_example =
    login_succeeds svc c2 db credentials "laptop" "browser" alice "h:secret123" credentials_valid
      refl refl refl refl refl refl refl refl refl

abbrev after_password : Db
after_password = (set_password svc c db "u1" "newsecret").1

password_set :
    set_password svc c db "u1" "newsecret"
    ≡ (ok (respond_void "Password set successfully" 200 1000), after_password)
unfolding program
password_set = refl

abbrev todo : CreateTodoRequest
todo = record { title = " buy milk"; description = "" }

todo_valid : validate_create todo ≡ ok tt
unfolding validate_create is_all_space
todo_valid = refl

abbrev change : UpdateTodoRequest
change = record { title = none; description = some "two litres"; completed = none }
