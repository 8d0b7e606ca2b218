-- ===== src/Auth/Login/Completeness.antt =====
-- When a login with a password succeeds.
use cppbackend_api.Base.{
  ℕ, ◌≡◌, refl, ap, true, false, some, String, str_eq, is_empty, arith, find_first, any,
}
use cppbackend_api.Domain.Result.{ok, is_ok}
use cppbackend_api.Domain.Entities.{User}
use cppbackend_api.Validation.Credentials.{LoginRequest, validate_login}
use cppbackend_api.Db.{Db, Outcome, commits}
use cppbackend_api.Db.Users.{find_user, find_user_by_email, map_user_row}
use cppbackend_api.Db.Sessions.{create_session}
use cppbackend_api.Auth.{Services, Call, start_session, issue_tokens}
use cppbackend_api.Auth.Login.{login, login_user, check_password}
use cppbackend_api.Auth.Login.Soundness.{has_email, reset_failed_attempts-sessions}

pub find_user_by_email-known :
    (o : Outcome) (now : ℕ) (db : Db) (email : String) (r : User)
    → o ≡ commits
    → find_first (has_email email) db.users ≡ some r
    → find_user_by_email o now db email ≡ some (map_user_row now r)
unfolding find_user_by_email find_user
find_user_by_email-known o now db email r e found = rw (e, found) refl

pub login-known :
    (svc : Services) (c : Call) (db : Db) (req : LoginRequest) (device client : String) (r : User)
    → validate_login req ≡ ok tt
    → c.outcome 0 ≡ commits
    → find_first (has_email req.email) db.users ≡ some r
    → login svc c db req device client
      ≡ login_user svc c db req device client (map_user_row c.now r)
unfolding login
login-known svc c db req device client r valid commit found =
    ground (arith, valid, find_user_by_email-known (c.outcome 0) c.now db req.email r commit found)

-- A valid login with the password of a stored and active user succeeds, where the look-up and the
-- insertion of the session commit, the drawn jti is new and the drawn session id is not empty; no
-- other statement needs to.
pub login_succeeds :
    (svc : Services) (c : Call) (db : Db) (req : LoginRequest) (device client : String) (r : User)
    (hash : String)
    → validate_login req ≡ ok tt
    → c.outcome 0 ≡ commits
    → c.outcome 6 ≡ commits
    → find_first (has_email req.email) db.users ≡ some r
    → r.is_active ≡ true
    → r.password_hash ≡ some hash
    → is_empty hash ≡ false
    → svc.verify_password req.password hash ≡ true
    → any (λ q. str_eq q.jti c.drawn_jti) db.sessions ≡ false
    → is_empty c.drawn_session_id ≡ false
    → is_ok (login svc c db req device client).0 ≡ true
unfolding login_user check_password start_session issue_tokens create_session map_user_row
login_succeeds svc c db req device client r hash valid look insert found active password some_hash
      right new_jti named =
    rw (login-known svc c db req device client r valid look found) (
      ground (
        arith,
        reset_failed_attempts-sessions (c.outcome 5) c.now db r.id,
        ap (any (λ q. str_eq q.jti c.drawn_jti))
            (reset_failed_attempts-sessions (c.outcome 5) c.now db r.id),
      ))
