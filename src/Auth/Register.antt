-- ===== src/Auth/Register.antt =====
-- AuthUseCases::registerUser and setPassword.
pub mod Effects
pub mod Password
pub mod RoundTrip
use cppbackend_api.Base.{
  ℕ, Bool, true, none, some, String, append, if◌then◌else◌, ltb, is_empty, size,
}
use cppbackend_api.Domain.Result.{Result, ok, err, fail_with, ApiResponse, created, respond_void}
use cppbackend_api.Domain.Entities.{User, AuditLog}
use cppbackend_api.Validation.Credentials.{RegisterRequest, validate_register}
use cppbackend_api.Db.{Db}
use cppbackend_api.Db.Users.{find_user_by_email, find_user_by_id, create_user, set_user_password}
use cppbackend_api.Db.Audit.{record_audit}
use cppbackend_api.Auth.{Services, Call}

pub record RegisterResponse : Type 0 where
  pub id : String
  pub email : String
  pub role : String
  pub created_at : ℕ

-- These handlers pass no client along: the audit's address and agent stay empty.
abbrev local_audit : String → String → String → AuditLog
local_audit event uid reason = record {
  event_type = event;
  user_id = some uid;
  admin_user_id = none;
  session_id = none;
  ip_address = "";
  user_agent = "";
  reason = reason;
}

abbrev pub registered_user : Services → Call → RegisterRequest → User
registered_user svc c req = record {
  id = "";
  email = req.email;
  password_hash = some (svc.hash_password req.password);
  role = if is_empty req.role then "user" else req.role;
  is_active = true;
  failed_login_attempts = 0;
  locked_until = none;
  created_at = c.now;
  updated_at = c.now;
  google_id = none;
  auth_provider = "local";
  avatar_url = none;
}

unfoldable pub finish_register : Call → User × Db → Result (ApiResponse RegisterResponse) × Db
finish_register c (made, db) =
    if is_empty made.id
    then (err (fail_with 500 "User creation error" "Failed to insert user record."), db)
    else (
      ok (
          created
            (record {
              id = made.id;
              email = made.email;
              role = made.role;
              created_at = made.created_at;
            })
            "User registered successfully" c.now),
      record_audit (c.outcome 2) db
          (local_audit "USER_REGISTERED" made.id (append "User registered with role " made.role)),
    )

unfoldable pub register_user :
    Services → Call → Db → RegisterRequest → Result (ApiResponse RegisterResponse) × Db
register_user svc c db req = elim (validate_register req) [
  | err e ↦ (err e, db)
  | ok _ ↦ elim (find_user_by_email (c.outcome 0) c.now db req.email) [
    | some _ ↦ (
      err (
          fail_with 409 "Registration conflict"
            "An account with this email address already exists."),
      db,
    )
    | none ↦
        finish_register c
          (create_user (c.outcome 1) c.drawn_user_id c.now db (registered_user svc c req))
  ]
]

unfoldable pub finish_set_password :
    Call → String → Bool × Db → Result (ApiResponse (Unit {0})) × Db
finish_set_password c uid (done, db) =
    if done
    then (
      ok (respond_void "Password set successfully" 200 c.now),
      record_audit (c.outcome 2) db (
          local_audit "PASSWORD_SET" uid
            "Password added to account, enabling dual password and Google login."),
    )
    else (err (fail_with 500 "Database error" "Failed to update password."), db)

unfoldable pub set_password :
    Services → Call → Db → String → String → Result (ApiResponse (Unit {0})) × Db
set_password svc c db uid password =
    if ltb (size password) 8
    then (
      err (fail_with 400 "Validation failed" "Password must be at least 8 characters long."),
      db,
    )
    else elim (find_user_by_id (c.outcome 0) c.now db uid) [
      | none ↦ (err (fail_with 404 "User not found" "User does not exist."), db)
      | some _ ↦
          finish_set_password c uid
            (set_user_password (c.outcome 1) c.now db uid (svc.hash_password password))
    ]
