-- ===== src/Auth/Logout.antt =====
-- AuthUseCases::logout and logoutAll.
use cppbackend_api.Base.{ℕ, Bool, none, some, String, append, to_string, if◌then◌else◌}
use cppbackend_api.Domain.Result.{Result, ok, err, fail_with, ApiResponse, respond_void}
use cppbackend_api.Db.{Db}
use cppbackend_api.Db.Sessions.{revoke_session, revoke_all_user_sessions}
use cppbackend_api.Db.Audit.{record_audit}
use cppbackend_api.Auth.{Call, audit_log}

unfoldable pub finish_logout :
    Call → String → String → Bool × Db → Result (ApiResponse (Unit {0})) × Db
finish_logout c sid uid (revoked, db) =
    if revoked
    then (
      ok (respond_void "Session terminated successfully" 200 c.now),
      record_audit (c.outcome 1) db
          (audit_log c "LOGOUT" (some uid) (some sid) "User logged out current session."),
    )
    else (
      err (fail_with 404 "Session not found" "Session does not exist or was already revoked."),
      db,
    )

unfoldable pub logout : Call → Db → String → String → Result (ApiResponse (Unit {0})) × Db
logout c db sid uid =
    finish_logout c sid uid (revoke_session (c.outcome 0) c.now db sid "User logout")

unfoldable pub finish_logout_all : Call → String → ℕ × Db → Result (ApiResponse (Unit {0})) × Db
finish_logout_all c uid (count, db) = (
  ok (
      respond_void (append "All sessions terminated successfully. Count: " (to_string count)) 200
        c.now),
  record_audit (c.outcome 1) db (
      audit_log c "ALL_SESSIONS_REVOKED" (some uid) none
        (append "User revoked all active sessions. Total sessions revoked: " (to_string count))),
)

unfoldable pub logout_all : Call → Db → String → Result (ApiResponse (Unit {0})) × Db
logout_all c db uid =
    finish_logout_all c uid
      (revoke_all_user_sessions (c.outcome 0) c.now db uid "User initiated logout-all")
