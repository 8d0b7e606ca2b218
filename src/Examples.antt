-- ===== src/Examples.antt =====
-- Concrete services, requests and tables, on which the children run the program.
pub mod Login
pub mod Refresh
pub mod Sessions
pub mod Google
pub mod Accounts
pub mod TodoRuns
pub mod QueueRuns
pub mod KeyRuns
pub mod Tokens
pub mod PoolRuns
pub mod EnvRuns
pub mod Codes
pub mod Stores
pub mod GoogleTokens
use cppbackend_api.Base.{
  ℕ, Bool, true, false, Option, none, some, List, [], ◌∷◌, String, append, str_eq,
}
use cppbackend_api.Domain.Result.{ok}
use cppbackend_api.Domain.Entities.{User, Session}
use cppbackend_api.Domain.Permissions.{has_permission, can_access_session, can_revoke_session}
use cppbackend_api.Validation.Credentials.{
  is_all_whitespace, is_valid_email, validate_register, validate_login, validate_refresh_token,
}
use cppbackend_api.Db.{Db, SessionRow, Outcome, commits}
use cppbackend_api.Db.Users.{
  find_user_by_id, find_user_by_email, find_user_by_google_id, create_user, link_google_account,
  set_user_password, update_user_role, increment_failed_attempts, reset_failed_attempts,
  lock_account,
}
use cppbackend_api.Db.Sessions.{
  find_session_by_id, find_session_by_jti, find_session_by_refresh_hash, create_session,
  update_refresh_token, revoke_session, revoke_all_user_sessions, is_token_revoked,
}
use cppbackend_api.Db.Cache.{get_cached, set_cached, remove_cached}
use cppbackend_api.Db.Audit.{record_audit}
use cppbackend_api.Auth.{
  Services, Call, GoogleUserInfo, GoogleAuthService, start_session, issue_tokens,
}
use cppbackend_api.Auth.Login.{
  login, login_user, check_password, wrong_password, lock_if_excessive, unknown_email,
}
use cppbackend_api.Auth.Register.{register_user, finish_register, set_password, finish_set_password}
use cppbackend_api.Auth.Refresh.{
  refresh, refresh_found, refresh_session, rotate, finish_rotation, reuse_detected,
}
use cppbackend_api.Auth.Logout.{logout, finish_logout, logout_all, finish_logout_all}
use cppbackend_api.Auth.Google.{
  login_with_google, get_google_auth_url, admit_identified, admit, target_user, link_account,
  finish_signup, identify, exchange, effective_verifier, cached_verifier,
}
use cppbackend_api.SessionUseCases.{
  revoke_user_session, revoke_own, locate_session, revoke_admin_session, revoke_as_admin,
  revoke_all_user_sessions_admin, finish_admin_revocation,
}
use cppbackend_api.Access.{
  authenticate, authenticate_user, extract_authenticated_user, bearer_token,
}

-- What a run unfolds.
unfoldable pub program : Unit {0}
unfolding has_permission can_access_session can_revoke_session is_all_whitespace is_valid_email
    validate_register validate_login validate_refresh_token find_user_by_id find_user_by_email
    find_user_by_google_id create_user link_google_account set_user_password update_user_role
    increment_failed_attempts reset_failed_attempts lock_account find_session_by_id
    find_session_by_jti find_session_by_refresh_hash create_session update_refresh_token
    revoke_session revoke_all_user_sessions is_token_revoked get_cached set_cached remove_cached
    record_audit start_session issue_tokens login login_user check_password wrong_password
    lock_if_excessive unknown_email register_user finish_register set_password finish_set_password
    refresh refresh_found refresh_session rotate finish_rotation reuse_detected logout finish_logout
    logout_all finish_logout_all login_with_google get_google_auth_url admit_identified admit
    target_user link_account finish_signup identify exchange effective_verifier cached_verifier
    revoke_user_session revoke_own locate_session revoke_admin_session revoke_as_admin
    revoke_all_user_sessions_admin finish_admin_revocation authenticate authenticate_user
    extract_authenticated_user bearer_token
program = tt

abbrev pub gmail : GoogleUserInfo
gmail = record { google_id = "g9"; email = "new@b.co"; picture = "" }

-- The code for `gmail` is "code" with the verifier "ver".
abbrev pub google : GoogleAuthService
google = record {
  verify_id_token = λ t. ok gmail;
  exchange_auth_code = λ code verifier. ok gmail;
  generate_code_challenge = λ v. append "S256:" v;
  get_authorization_url = λ state challenge. append "https://accounts.google.com/?state=" state;
}

abbrev pub svc : Services
svc = record {
  hash_password = λ p. append "h:" p;
  verify_password = λ p h. str_eq (append "h:" p) h;
  sha256_hex = λ t. append "sha:" t;
  create_access_token = λ user role session jti ttl. append "jwt." jti;
  google = some google;
  has_cache = true;
}

abbrev pub call : ℕ → (ℕ → Outcome) → String → Call
call now outcome drawn = record {
  now = now;
  ip_address = "10.0.0.1";
  user_agent = "curl";
  outcome = outcome;
  ties = λ r q. true;
  drawn_user_id = append "user-" drawn;
  drawn_session_id = append "session-" drawn;
  drawn_jti = append "jti-" drawn;
  drawn_token = append "token-" drawn;
  drawn_verifier = append "verifier-" drawn;
}

abbrev pub committing : ℕ → Outcome
committing n = commits

-- Two requests in which every statement commits.
abbrev pub c : Call
c = call 1000 committing "a"

abbrev pub c2 : Call
c2 = call 1500 committing "b"

abbrev pub alice : User
alice = record {
  id = "u1";
  email = "alice@b.co";
  password_hash = some "h:secret123";
  role = "user";
  is_active = true;
  failed_login_attempts = 4;
  locked_until = some 5000;
  created_at = 10;
  updated_at = 10;
  google_id = none;
  auth_provider = "local";
  avatar_url = none;
}

abbrev pub root : User
root = record alice { id = "u0"; email = "root@b.co"; role = "admin"; failed_login_attempts = 0 }

abbrev pub session_of : String → String → String → Session
session_of id user_id token = record {
  id = id;
  user_id = user_id;
  jti = append "j-" id;
  refresh_token_hash = append "sha:" token;
  created_at = 500;
  last_seen_at = 500;
  expires_at = 9000;
  revoked_at = none;
  revocation_reason = none;
  ip_address = "10.0.0.1";
  user_agent = "curl";
  device_name = "laptop";
  client_type = "browser";
}

abbrev pub row_of : Session → SessionRow
row_of s = record { session = s; previous_refresh_token_hash = none }

abbrev pub s1 : Session
s1 = session_of "s1" "u1" "t1"

abbrev pub r1 : SessionRow
r1 = row_of s1

abbrev pub r0 : SessionRow
r0 = row_of (session_of "s0" "u0" "t0")

abbrev pub db : Db
db = record {
  users = root ∷ alice ∷ [];
  sessions = r0 ∷ r1 ∷ row_of (session_of "s2" "u1" "t2") ∷ [];
  revocations = [];
  cache = [];
  audit = [];
  notified = [];
}
