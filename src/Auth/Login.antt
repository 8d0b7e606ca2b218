-- ===== src/Auth/Login.antt =====
-- AuthUseCases::login.
pub mod Soundness
pub mod Completeness
pub mod Lockout
use cppbackend_api.Base.{
  ℕ, suc, ◌+◌, Bool, true, false, not, Option, none, some, String, append, if◌then◌else◌, ltb, leb,
  is_empty,
}
use cppbackend_api.Domain.Result.{Result, ok, err, DomainError, fail_with, ApiResponse}
use cppbackend_api.Domain.Entities.{User}
use cppbackend_api.Validation.Credentials.{LoginRequest, validate_login}
use cppbackend_api.Db.{Db}
use cppbackend_api.Db.Users.{find_user_by_email, increment_failed_attempts, lock_account}
use cppbackend_api.Db.Audit.{record_audit}
use cppbackend_api.Auth.{Services, Call, TokenResponse, audit_log, start_session}

abbrev pub bad_credentials : DomainError
bad_credentials = fail_with 401 "Authentication failed" "Invalid email or password."

abbrev pub account_locked : DomainError
account_locked =
    fail_with 429 "Account temporarily locked"
      "Account locked due to excessive failed attempts. Please try again later."

-- `user.lockedUntil.has_value() && now < *user.lockedUntil`.
abbrev pub locked_now : Option ℕ → ℕ → Bool
locked_now none now = false
locked_now (some until) now = ltb now until

-- The account is locked for fifteen minutes at the fifth failure.
unfoldable pub lock_if_excessive : Call → Db → User → Db
lock_if_excessive c db user =
    if leb 5 (user.failed_login_attempts + 1)
    then record_audit (c.outcome 3) (lock_account (c.outcome 2) c.now db user.id (c.now + 900)) (
        audit_log c "ACCOUNT_LOCKED" (some user.id) none
          "Account locked for 15 minutes after 5 failed attempts.")
    else db

unfoldable pub wrong_password : Call → Db → User → Result (ApiResponse TokenResponse) × Db
wrong_password c db user = (
  err bad_credentials,
  record_audit (c.outcome 4)
      (lock_if_excessive c (increment_failed_attempts (c.outcome 1) c.now db user.id) user)
      (audit_log c "LOGIN_FAILURE" (some user.id) none "Incorrect password provided."),
)

-- The part below the check that there is a password.
unfoldable pub check_password :
    Services
    → Call
    → Db
    → LoginRequest
    → String
    → String
    → User
    → String
    → Result (ApiResponse TokenResponse) × Db
check_password svc c db req device client user hash =
    if svc.verify_password req.password hash
    then start_session svc c db user 7 device client "LOGIN_SUCCESS"
        (append "Session initiated on device: " device) "Login successful"
    else wrong_password c db user

abbrev pub no_password : DomainError
no_password =
    fail_with 400 "Password login unavailable"
      "This account was registered via Google Sign-In. Please sign in with Google, or add a password using the set-password endpoint."

unfoldable pub login_user :
    Services
    → Call
    → Db
    → LoginRequest
    → String
    → String
    → User
    → Result (ApiResponse TokenResponse) × Db
login_user svc c db req device client user =
    if not user.is_active
    then (err (fail_with 403 "Account deactivated" "This user account has been disabled."), db)
    else if locked_now user.locked_until c.now
    then (err account_locked, db)
    else elim user.password_hash [
      | none ↦ (err no_password, db)
      | some hash ↦
          if is_empty hash
          then (err no_password, db)
          else check_password svc c db req device client user hash
    ]

unfoldable pub unknown_email : Call → Db → LoginRequest → Result (ApiResponse TokenResponse) × Db
unknown_email c db req = (
  err bad_credentials,
  record_audit (c.outcome 8) db
      (audit_log c "LOGIN_FAILURE" none none (append "Unknown user email: " req.email)),
)

unfoldable pub login :
    Services → Call → Db → LoginRequest → String → String → Result (ApiResponse TokenResponse) × Db
login svc c db req device client = elim (validate_login req) [
  | err e ↦ (err e, db)
  | ok _ ↦ elim (find_user_by_email (c.outcome 0) c.now db req.email) [
    | none ↦ unknown_email c db req
    | some user ↦ login_user svc c db req device client user
  ]
]
