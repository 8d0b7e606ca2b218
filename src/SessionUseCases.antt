-- ===== src/SessionUseCases.antt =====
-- Application/src/UseCases/SessionUseCases.cpp.
pub mod Guards
pub mod Filters
pub mod Listing
use cppbackend_api.Base.{
  ℕ, Bool, true, false, not, ◌&&◌, Option, none, some, List, map, String, append, to_string, str_eq,
  if◌then◌else◌, is_empty, ◌==◌, ltb, ℤ, pos, negsuc,
}
use cppbackend_api.Domain.Result.{
  Result, ok, err, DomainError, fail_with, ApiResponse, respond, respond_void,
}
use cppbackend_api.Domain.Entities.{User, Session, AuditLog, is_revoked, is_expired}
use cppbackend_api.Domain.Permissions.{has_permission, session_revoke_all, session_read_all}
use cppbackend_api.Db.{Db}
use cppbackend_api.Db.Sessions.{
  find_session_by_id, find_session_by_jti, find_user_sessions, revoke_session,
  revoke_all_user_sessions,
}
use cppbackend_api.Db.Sessions.Listing.{find_all_sessions}
use cppbackend_api.Db.Audit.{record_audit}
use cppbackend_api.Auth.{Call, audit_log}

pub record SessionResponse : Type 0 where
  pub id : String
  pub user_id : String
  pub device : String
  pub ip_address : String
  pub jti : String
  pub created_at : ℕ
  pub last_seen_at : ℕ
  pub expires_at : ℕ
  pub current : Bool
  pub status : String

unfoldable pub status_of : Session → ℕ → String
status_of s now =
    if is_revoked s then "revoked" else if is_expired s now then "expired" else "active"

unfoldable pub map_to_session_response : ℕ → String → Session → SessionResponse
map_to_session_response now current_sid s = record {
  id = s.id;
  user_id = s.user_id;
  device = if is_empty s.device_name then s.client_type else s.device_name;
  ip_address = s.ip_address;
  jti = s.jti;
  created_at = s.created_at;
  last_seen_at = s.last_seen_at;
  expires_at = s.expires_at;
  current = not (is_empty current_sid) && str_eq s.id current_sid;
  status = status_of s now;
}

unfoldable pub get_user_sessions :
    Call → Db → String → String → Result (ApiResponse (List SessionResponse))
get_user_sessions c db uid current_sid = ok (
    respond
      (map (map_to_session_response c.now current_sid)
        (find_user_sessions c.ties (c.outcome 0) c.now db uid true))
      "Sessions retrieved successfully" 200 c.now)

-- By id, and where that finds nothing by jti.
unfoldable pub locate_session : Call → Db → String → Option Session
locate_session c db sid = elim (find_session_by_id (c.outcome 0) db sid) [
  | some s ↦ some s
  | none ↦ find_session_by_jti (c.outcome 1) db sid
]

abbrev pub access_denied : DomainError
access_denied = fail_with 403 "Access denied" "You do not have permission to revoke this session."

unfoldable pub revoke_own : Call → Db → String → Session → Result (ApiResponse (Unit {0})) × Db
revoke_own c db uid s =
    if not (str_eq s.user_id uid)
    then (err access_denied, db)
    else if is_revoked s
    then (ok (respond_void "Session was already revoked" 200 c.now), db)
    else (
      ok (respond_void "Session revoked successfully" 200 c.now),
      record_audit (c.outcome 3)
          (revoke_session (c.outcome 2) c.now db s.id "User terminated session").1
          (audit_log c "SESSION_REVOKED" (some uid) (some s.id) "Self session termination"),
    )

unfoldable pub revoke_user_session :
    Call → Db → String → String → Result (ApiResponse (Unit {0})) × Db
revoke_user_session c db uid sid = elim (locate_session c db sid) [
  | none ↦ (err (fail_with 404 "Session not found" "Session or JWT not found."), db)
  | some s ↦ revoke_own c db uid s
]

abbrev pub forbidden : DomainError
forbidden = fail_with 403 "Forbidden" "Administrative privilege required."

-- The page that a request gets: 50 sessions where the limit is not positive, 200 at most.
unfoldable pub page_limit : ℤ → ℕ
page_limit (negsuc n) = 50
page_limit (pos n) = if n == 0 then 50 else if ltb 200 n then 200 else n

unfoldable pub page_offset : ℤ → ℕ
page_offset (negsuc n) = 0
page_offset (pos n) = n

unfoldable pub get_admin_sessions :
    Call
    → Db
    → User
    → ℤ
    → ℤ
    → Option String
    → Option String
    → Option String
    → Result (ApiResponse (List SessionResponse))
unfolding page_limit page_offset
get_admin_sessions c db admin limit offset user_id status ip =
    if not (has_permission admin session_read_all)
    then err forbidden
    else ok (
        respond
          (map (map_to_session_response c.now "") (
            find_all_sessions c.ties (c.outcome 0) c.now db (pos (page_limit limit))
              (pos (page_offset offset)) user_id status ip))
          "Admin sessions retrieved successfully" 200 c.now)

abbrev admin_log : Call → String → String → String → Option String → String → AuditLog
admin_log c event admin uid sid reason = record {
  event_type = event;
  user_id = some uid;
  admin_user_id = some admin;
  session_id = sid;
  ip_address = c.ip_address;
  user_agent = c.user_agent;
  reason = reason;
}

unfoldable pub revoke_as_admin :
    Call → Db → User → String → Session → Result (ApiResponse (Unit {0})) × Db
revoke_as_admin c db admin reason s = (
  ok (respond_void "Session terminated by administrator" 200 c.now),
  record_audit (c.outcome 3) (revoke_session (c.outcome 2) c.now db s.id reason).1
      (admin_log c "SESSION_REVOKED_BY_ADMIN" admin.id s.user_id (some s.id) reason),
)

unfoldable pub revoke_admin_session :
    Call → Db → User → String → String → Result (ApiResponse (Unit {0})) × Db
revoke_admin_session c db admin sid reason =
    if not (has_permission admin session_revoke_all)
    then (err forbidden, db)
    else elim (locate_session c db sid) [
      | none ↦ (err (fail_with 404 "Session not found" "Target session or JWT does not exist."), db)
      | some s ↦
          revoke_as_admin c db admin
            (if is_empty reason then "Revoked by administrator" else reason) s
    ]

unfoldable pub finish_admin_revocation :
    Call → User → String → String → ℕ × Db → Result (ApiResponse (Unit {0})) × Db
finish_admin_revocation c admin uid reason (count, db) = (
  ok (
      respond_void (append "All user sessions revoked by administrator. Count: " (to_string count))
        200 c.now),
  record_audit (c.outcome 1) db (
      admin_log c "ALL_SESSIONS_REVOKED" admin.id uid none
        (append reason (append ". Count: " (to_string count)))),
)

unfoldable pub revoke_all_user_sessions_admin :
    Call → Db → User → String → String → Result (ApiResponse (Unit {0})) × Db
revoke_all_user_sessions_admin c db admin uid reason =
    if not (has_permission admin session_revoke_all)
    then (err forbidden, db)
    else let given = if is_empty reason then "All sessions revoked by administrator" else reason in
      finish_admin_revocation c admin uid given
        (revoke_all_user_sessions (c.outcome 0) c.now db uid given)
