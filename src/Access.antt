-- ===== src/Access.antt =====
-- HttpResponseHelper::extractAuthenticatedUser (Presentation/src/Common/HttpResponseHelper.cpp),
-- which every protected handler calls first. The header is its bytes after "Bearer ", or nothing.
pub mod Decisions
use cppbackend_api.Base.{
  ℕ, Bool, true, false, not, ◌&&◌, ◌||◌, Option, none, some, String, if◌then◌else◌, is_empty, ℤ,
}
use cppbackend_api.Domain.Result.{Result, ok, err, DomainError, fail_with}
use cppbackend_api.Domain.Entities.{User, Session, is_revoked, is_expired}
use cppbackend_api.Db.{Db, Outcome}
use cppbackend_api.Db.Users.{find_user_by_id}
use cppbackend_api.Db.Sessions.{find_session_by_id, is_token_revoked}
use cppbackend_api.Auth.{Call}

pub record JwtClaims : Type 0 where
  pub iss : String
  pub sub : String
  pub aud : String
  pub iat : ℤ
  pub nbf : ℤ
  pub exp : ℤ
  pub jti : String
  pub sid : String
  pub role : String
  pub kid : String

-- Presentation/Middleware/AuthContext.h.
pub record AuthenticatedUser : Type 0 where
  pub id : String
  pub email : String
  pub role : String
  pub session_id : String
  pub jti : String

abbrev pub token_revoked : DomainError
token_revoked = fail_with 401 "Token revoked" "Access token has been revoked."

abbrev pub session_terminated : DomainError
session_terminated = fail_with 401 "Session terminated" "Session has been revoked or has expired."

abbrev pub account_disabled : DomainError
account_disabled = fail_with 401 "Account disabled" "User account is inactive or disabled."

abbrev pub session_usable : Option Session → ℕ → Bool
session_usable none now = false
session_usable (some s) now = not (is_revoked s || is_expired s now)

unfoldable pub authenticate_user : JwtClaims → Option User → Result AuthenticatedUser
authenticate_user claims none = err account_disabled
authenticate_user claims (some user) =
    if user.is_active
    then ok (record {
      id = user.id;
      email = user.email;
      role = user.role;
      session_id = claims.sid;
      jti = claims.jti;
    })
    else err account_disabled

-- The checks after the token's own validation.
unfoldable pub authenticate : Call → Db → JwtClaims → Result AuthenticatedUser
authenticate c db claims =
    if is_token_revoked (c.outcome 0) db claims.jti
    then err token_revoked
    else if session_usable (find_session_by_id (c.outcome 1) db claims.sid) c.now
    then authenticate_user claims (find_user_by_id (c.outcome 2) c.now db claims.sub)
    else err session_terminated

-- "Bearer " and the rest of an Authorization header.
unfoldable pub bearer_token : String → Option String
bearer_token header =
    if text.Mathlib.Text.starts_with header "Bearer "
    then some (Prim.Native.String.slice header 7 (Prim.Native.String.len header))
    else none

-- `validate` is IJwtService::validateAccessToken.
unfoldable pub extract_authenticated_user :
    (String → Result JwtClaims) → Call → Db → String → Result AuthenticatedUser
extract_authenticated_user validate c db header = elim (bearer_token header) [
  | none ↦
      err
        (fail_with 401 "Unauthorized" "Missing or invalid 'Authorization: Bearer <token>' header.")
  | some token ↦ elim (validate token) [ err e ↦ err e | ok claims ↦ authenticate c db claims ]
]
