-- ===== src/Auth/Refresh.antt =====
-- AuthUseCases::refresh.
pub mod Rotation
pub mod Reuse
pub mod Race
use cppbackend_api.Base.{ℕ, ◌+◌, Bool, true, false, not, Option, none, some, String, if◌then◌else◌}
use cppbackend_api.Domain.Result.{Result, ok, err, DomainError, fail_with, ApiResponse, respond}
use cppbackend_api.Domain.Entities.{User, Session, is_revoked, is_expired}
use cppbackend_api.Validation.Credentials.{RefreshTokenRequest, validate_refresh_token}
use cppbackend_api.Db.{Db}
use cppbackend_api.Db.Users.{find_user_by_id}
use cppbackend_api.Db.Sessions.{
  find_session_by_refresh_hash, update_refresh_token, revoke_all_user_sessions,
}
use cppbackend_api.Db.Audit.{record_audit}
use cppbackend_api.Auth.{Services, Call, TokenResponse, token_response, audit_log, seconds_of_days}

abbrev pub invalid_token : DomainError
invalid_token = fail_with 401 "Invalid refresh token" "Token is invalid, expired, or revoked."

-- A token that comes back after its rotation or revocation: every session of its user is revoked.
unfoldable pub reuse_detected : Call → Db → Session → Db
reuse_detected c db s =
    record_audit (c.outcome 2)
      (revoke_all_user_sessions (c.outcome 1) c.now db s.user_id
        "Security: Refresh token reuse detected").1
      (audit_log c "REFRESH_REUSE_DETECTED" (some s.user_id) (some s.id)
        "Previously revoked refresh token was re-presented. All sessions revoked.")

unfoldable pub rotate : Services → Call → Db → Session → Bool × Db
rotate svc c db s =
    update_refresh_token (c.outcome 4) c.now db s.id (svc.sha256_hex c.drawn_token) c.drawn_jti
      (c.now + seconds_of_days 7)

unfoldable pub finish_rotation :
    Services → Call → Session → User → Bool × Db → Result (ApiResponse TokenResponse) × Db
finish_rotation svc c s user (updated, db) =
    if updated
    then (
      ok (
          respond
            (token_response (svc.create_access_token user.id user.role s.id c.drawn_jti 900)
              c.drawn_token s.id user)
            "Token refreshed successfully" 200 c.now),
      record_audit (c.outcome 5) db (
          audit_log c "REFRESH_SUCCESS" (some user.id) (some s.id)
            "Refresh token rotated successfully"),
    )
    else (err (fail_with 409 "Refresh collision" "Concurrent refresh conflict detected."), db)

abbrev inactive_user : DomainError
inactive_user = fail_with 401 "User inactive" "Account is inactive or disabled."

-- What follows the look-up of the session. Other requests may have run since.
unfoldable pub refresh_session :
    Services → Call → Db → Session → Result (ApiResponse TokenResponse) × Db
refresh_session svc c db s =
    if is_expired s c.now
    then (
      err (fail_with 401 "Session expired" "The refresh session has expired. Please log in again."),
      db,
    )
    else elim (find_user_by_id (c.outcome 3) c.now db s.user_id) [
      | none ↦ (err inactive_user, db)
      | some user ↦
          if user.is_active
          then finish_rotation svc c s user (rotate svc c db s)
          else (err inactive_user, db)
    ]

-- What follows the look-up.
unfoldable pub refresh_found :
    Services → Call → Db → Option Session → Result (ApiResponse TokenResponse) × Db
refresh_found svc c db none = (err invalid_token, db)
refresh_found svc c db (some s) =
    if is_revoked s then (err invalid_token, reuse_detected c db s) else refresh_session svc c db s

unfoldable pub refresh :
    Services → Call → Db → RefreshTokenRequest → Result (ApiResponse TokenResponse) × Db
refresh svc c db req = elim (validate_refresh_token req) [
  | err e ↦ (err e, db)
  | ok _ ↦
      refresh_found svc c db
        (find_session_by_refresh_hash (c.outcome 0) c.now db (svc.sha256_hex req.refresh_token))
]
