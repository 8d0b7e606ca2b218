-- ===== src/SessionUseCases/Guards.antt =====
-- Who may revoke which session, and what the revocations leave behind.
use cppbackend_api.Base.{
  ℕ, ◌≡◌, ◌≢◌, ◌⊎◌, refl, sym, ap, ◌∙◌, true, false, not, ◌&&◌, inl, inr, none, some, [], String,
  append, to_string, str_eq, eq_iff, if◌then◌else◌, is_empty, arith, find_first, select, length,
  Bool-cases, Option-cases, All, Option, ℤ,
}
use cppbackend_api.Domain.Result.{Result, ok, err, ApiResponse, respond_void}
use cppbackend_api.Domain.Entities.{User, Session, AuditLog, is_revoked}
use cppbackend_api.Domain.Permissions.{has_permission, session_revoke_all, session_read_all}
use cppbackend_api.Domain.Permissions.Roles.{has_permission-other}
use cppbackend_api.Db.{Db, Outcome, commits, refused}
use cppbackend_api.Db.Sessions.{names_session, is_open, of_user, revoke_session}
use cppbackend_api.Db.Sessions.Revoking.{
  revoke_session-leaves_none_open, revoke_all_user_sessions_lem, is_listed,
}
use cppbackend_api.Db.Audit.{record_audit}
use cppbackend_api.Auth.{Call, audit_log}
use cppbackend_api.Auth.Login.Soundness.{record_audit-sessions, record_audit-revocations}
use cppbackend_api.SessionUseCases.{
  locate_session, revoke_own, revoke_user_session, revoke_admin_session,
  revoke_all_user_sessions_admin, finish_admin_revocation, forbidden, get_admin_sessions,
}

-- A user whose role is not "admin" is refused by both administrative revocations, which change
-- nothing, and by the listing of all sessions.
pub admin_operations_forbidden :
    (c : Call) (db : Db) (u : User) (target reason : String) (limit offset : ℤ)
    (user_id status ip : Option String)
    → u.role ≢ "admin"
    → (revoke_admin_session c db u target reason ≡ (err forbidden, db))
      × (revoke_all_user_sessions_admin c db u target reason ≡ (err forbidden, db))
      × (get_admin_sessions c db u limit offset user_id status ip ≡ err forbidden)
unfolding revoke_admin_session revoke_all_user_sessions_admin get_admin_sessions
admin_operations_forbidden c db u target reason limit offset user_id status ip other =
    rw (has_permission-other u session_revoke_all other refl)
      (rw (has_permission-other u session_read_all other refl) (refl, refl, refl))

abbrev own_log : Call → String → Session → AuditLog
own_log c uid s = audit_log c "SESSION_REVOKED" (some uid) (some s.id) "Self session termination"

revoke_own-open :
    (c : Call) (db : Db) (uid : String) (s : Session)
    → str_eq s.user_id uid ≡ true
    → is_revoked s ≡ false
    → revoke_own c db uid s ≡ (
      ok (respond_void "Session revoked successfully" 200 c.now),
      record_audit
          (c.outcome 3)
          (revoke_session (c.outcome 2) c.now db s.id "User terminated session").1
          (own_log c uid s),
    )
unfolding revoke_own
revoke_own-open c db uid s mine open_s = ground arith

revoke_own-ok :
    (c : Call) (db db' : Db) (uid : String) (s : Session) (resp : ApiResponse (Unit {0}))
    → c.outcome 2 ≡ commits
    → revoke_own c db uid s ≡ (ok resp, db')
    → (s.user_id ≡ uid)
      × (((is_revoked s ≡ true) × (db' ≡ db))
          ⊎ (find_first (λ r. names_session s.id r && is_open r) db'.sessions ≡ none))
unfolding revoke_own
revoke_own-ok c db db' uid s resp commit h =
    let mine : str_eq s.user_id uid ≡ true = ground arith in
    elim (Bool-cases (is_revoked s)) [
      | inl e ↦ ((eq_iff s.user_id uid).0 mine, inl (e, ground arith))
      | inr e ↦
          let reason : String = "User terminated session" in
          let stored : db'.sessions ≡ (revoke_session commits c.now db s.id reason).1.sessions =
            ap (λ (p : Result (ApiResponse (Unit {0})) × Db). p.1.sessions)
              (sym h ∙ revoke_own-open c db uid s mine e)
            ∙ record_audit-sessions (c.outcome 3) _ (own_log c uid s)
            ∙ ap (λ (o : Outcome). (revoke_session o c.now db s.id reason).1.sessions) commit in
          (
            (eq_iff s.user_id uid).0 mine,
            inr (rw stored (revoke_session-leaves_none_open c.now db s.id reason)),
          )
    ]

-- A user can only revoke his own sessions: where a revocation succeeds and its update commits, the
-- session that was located by id or jti is that user's; and either it was revoked before, and
-- nothing changes, or no session of its id is open afterwards.
pub revoke_user_session_sound :
    (c : Call) (db db' : Db) (uid sid : String) (resp : ApiResponse (Unit {0}))
    → c.outcome 2 ≡ commits
    → revoke_user_session c db uid sid ≡ (ok resp, db')
    → (s : Session) × (locate_session c db sid ≡ some s)
      × (s.user_id ≡ uid)
      × (((is_revoked s ≡ true) × (db' ≡ db))
          ⊎ (find_first (λ r. names_session s.id r && is_open r) db'.sessions ≡ none))
unfolding revoke_user_session
revoke_user_session_sound c db db' uid sid resp commit h =
    elim (Option-cases (locate_session c db sid)) [
      | inl e ↦ absurd (ground arith)
      | inr (s, e) ↦
          let (mine, after) = revoke_own-ok c db db' uid s resp commit (ground arith) in
          (s, e, mine, after)
    ]

revoke_user_session-located :
    (c : Call) (db : Db) (uid sid : String) (s : Session)
    → locate_session c db sid ≡ some s
    → revoke_user_session c db uid sid ≡ revoke_own c db uid s
unfolding revoke_user_session
revoke_user_session-located c db uid sid s found = ground arith

-- The result of the revocation is not looked at: where its statement is refused, the answer is
-- still that the session was revoked, and the sessions are as before.
pub revoke_user_session_unchecked :
    (c : Call) (db : Db) (uid sid : String) (s : Session)
    → locate_session c db sid ≡ some s
    → s.user_id ≡ uid
    → is_revoked s ≡ false
    → c.outcome 2 ≡ refused
    → ((revoke_user_session c db uid sid).0
        ≡ ok (respond_void "Session revoked successfully" 200 c.now))
      × ((revoke_user_session c db uid sid).1.sessions ≡ db.sessions)
unfolding revoke_session
revoke_user_session_unchecked c db uid sid s found mine open_s refusal =
    rw
      (
        revoke_user_session-located c db uid sid s found,
        revoke_own-open c db uid s ((eq_iff s.user_id uid).1 mine) open_s,
        refusal,
      )
      (refl, record_audit-sessions (c.outcome 3) db (own_log c uid s))

-- An administrator's revocation of all sessions of a user, where it commits: no session of the user
-- is open afterwards, the sessions of the others are as before, the jti of each session that was
-- open is listed as revoked, and the answer names their number.
pub revoke_all_user_sessions_admin_lem :
    (c : Call) (db : Db) (admin : User) (uid reason : String)
    → has_permission admin session_revoke_all ≡ true
    → c.outcome 0 ≡ commits
    → let after = revoke_all_user_sessions_admin c db admin uid reason in
      (after.0
        ≡ ok (
            respond_void
              (append "All user sessions revoked by administrator. Count: "
                (to_string (length (select (of_user uid) db.sessions))))
              200
              c.now))
      × (select (of_user uid) after.1.sessions ≡ [])
      × (select (λ r. not (str_eq r.user_id uid)) after.1.sessions
          ≡ select (λ r. not (str_eq r.user_id uid)) db.sessions)
      × All (λ r. is_listed r.jti after.1.revocations ≡ true) (select (of_user uid) db.sessions)
unfolding revoke_all_user_sessions_admin finish_admin_revocation
revoke_all_user_sessions_admin_lem c db admin uid reason allowed commit =
    let given : String =
      if is_empty reason then "All sessions revoked by administrator" else reason in
    let (count, closed, others, listed) = revoke_all_user_sessions_lem c.now db uid given in
    rw (allowed, commit)
      (
        ap
            (λ (n : ℕ). ok (
              respond_void
                (append "All user sessions revoked by administrator. Count: " (to_string n)) 200
                c.now))
            count,
        rw record_audit-sessions closed,
        rw record_audit-sessions others,
        rw record_audit-revocations listed,
      )
