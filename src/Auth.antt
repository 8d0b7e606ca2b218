-- ===== src/Auth.antt =====
-- Application/src/UseCases/AuthUseCases.cpp: the interfaces that it calls, what one request brings
-- along, its responses, and the stage that opens a session, which password login and Google login
-- share.
pub mod Expected
pub mod Register
pub mod Login
pub mod Refresh
pub mod Logout
pub mod Google
use cppbackend_api.Base.{
  ℕ, ◌+◌, ◌*◌, ◌≡◌, Bool, Option, none, some, List, [], ◌∷◌, String, if◌then◌else◌, is_empty,
  is_some,
}
use cppbackend_api.Domain.Result.{Result, ok, err, fail_with, ApiResponse, respond}
use cppbackend_api.Domain.Entities.{User, Session, AuditLog}
use cppbackend_api.Db.{Db, Outcome}
use cppbackend_api.Db.Users.{reset_failed_attempts}
use cppbackend_api.Db.Sessions.{Ties, create_session}
use cppbackend_api.Db.Audit.{record_audit}

pub record GoogleUserInfo : Type 0 where
  pub google_id : String
  pub email : String
  pub picture : String

-- IGoogleAuthService: what Google answers, and the PKCE functions.
pub record GoogleAuthService : Type 0 where
  pub verify_id_token : String → Result GoogleUserInfo
  pub exchange_auth_code : String → String → Result GoogleUserInfo
  pub generate_code_challenge : String → String
  pub get_authorization_url : String → String → String

-- IPasswordHasher, ITokenGenerator::sha256Hex, IJwtService::createAccessToken and the two services
-- that may be absent. The arguments of `create_access_token` are the user, the role, the session,
-- the jti and the seconds to live.
pub record Services : Type 0 where
  pub hash_password : String → String
  pub verify_password : String → String → Bool
  pub sha256_hex : String → String
  pub create_access_token : String → String → String → String → ℕ → String
  pub google : Option GoogleAuthService
  pub has_cache : Bool

-- One request: its instant, its client, how the repository calls fare (numbered by call site, so
-- that each may fail by itself), in which order its listing has rows of one instant, and what the generators and the database draw for it.
pub record Call : Type 0 where
  pub now : ℕ
  pub ip_address : String
  pub user_agent : String
  pub outcome : ℕ → Outcome
  pub ties : Ties
  pub drawn_user_id : String
  pub drawn_session_id : String
  pub drawn_jti : String
  pub drawn_token : String
  pub drawn_verifier : String

pub record UserDto : Type 0 where
  pub id : String
  pub email : String
  pub role : String
  pub auth_provider : String
  pub avatar_url : String
  pub google_linked : Bool

pub record TokenResponse : Type 0 where
  pub access_token : String
  pub refresh_token : String
  pub token_type : String
  pub expires_in : ℕ
  pub session_id : String
  pub user : UserDto

abbrev pub or_empty : Option String → String
or_empty none = ""
or_empty (some s) = s

abbrev pub user_dto : User → UserDto
user_dto u = record {
  id = u.id;
  email = u.email;
  role = u.role;
  auth_provider = u.auth_provider;
  avatar_url = or_empty u.avatar_url;
  google_linked = is_some u.google_id;
}

abbrev pub token_response : String → String → String → User → TokenResponse
token_response access refresh sid user = record {
  access_token = access;
  refresh_token = refresh;
  token_type = "Bearer";
  expires_in = 900;
  session_id = sid;
  user = user_dto user;
}

-- An audit record without an administrator.
abbrev pub audit_log : Call → String → Option String → Option String → String → AuditLog
audit_log c event uid sid reason = record {
  event_type = event;
  user_id = uid;
  admin_user_id = none;
  session_id = sid;
  ip_address = c.ip_address;
  user_agent = c.user_agent;
  reason = reason;
}

abbrev pub seconds_of_days : ℕ → ℕ
seconds_of_days days = days * 86400

-- The session entity before it is stored; its id is drawn by the database.
abbrev pub new_session : Services → Call → User → ℕ → String → String → Session
new_session svc c user days device client = record {
  id = "";
  user_id = user.id;
  jti = c.drawn_jti;
  refresh_token_hash = svc.sha256_hex c.drawn_token;
  created_at = c.now;
  last_seen_at = c.now;
  expires_at = c.now + seconds_of_days days;
  revoked_at = none;
  revocation_reason = none;
  ip_address = c.ip_address;
  user_agent = c.user_agent;
  device_name = device;
  client_type = client;
}

-- After `createSession`: fail where no id came back, else issue the tokens.
unfoldable pub issue_tokens :
    Services
    → Call
    → User
    → String
    → String
    → String
    → Session × Db
    → Result (ApiResponse TokenResponse) × Db
issue_tokens svc c user event reason message (made, db) =
    if is_empty made.id
    then (err (fail_with 500 "Session error" "Failed to persist user session."), db)
    else (
      ok (
          respond
            (token_response (svc.create_access_token user.id user.role made.id c.drawn_jti 900)
              c.drawn_token made.id user)
            message 200 c.now),
      record_audit (c.outcome 7) db (audit_log c event (some user.id) (some made.id) reason),
    )

-- Reset the failure count, then create the session and its tokens.
unfoldable pub start_session :
    Services
    → Call
    → Db
    → User
    → ℕ
    → String
    → String
    → String
    → String
    → String
    → Result (ApiResponse TokenResponse) × Db
start_session svc c db user days device client event reason message =
    issue_tokens svc c user event reason message (
      create_session (c.outcome 6) c.drawn_session_id c.now
        (reset_failed_attempts (c.outcome 5) c.now db user.id)
        (new_session svc c user days device client))
