-- ===== src/Examples/Refresh.antt =====
-- Refreshes and authenticated requests on the example tables.
use cppbackend_api.Base.{pos, ◌≡◌, refl, true, false, some, [], String, find_first, select, str_eq}
use cppbackend_api.Domain.Result.{Result, ok, err, ApiResponse, respond, respond_void, is_ok}
use cppbackend_api.Domain.Entities.{User, is_revoked, is_expired}
use cppbackend_api.Validation.Credentials.{RefreshTokenRequest}
use cppbackend_api.Db.{Db, SessionRow}
use cppbackend_api.Db.Users.{map_user_row}
use cppbackend_api.Db.Sessions.{of_user, unique_jti}
use cppbackend_api.Auth.{TokenResponse, token_response}
use cppbackend_api.Auth.Refresh.{refresh, refresh_session, invalid_token}
use cppbackend_api.Auth.Expected.{rotated_sessions}
use cppbackend_api.Auth.Refresh.Rotation.{has_id, refreshed, refresh_sound}
use cppbackend_api.Auth.Refresh.Reuse.{refresh_replay}
use cppbackend_api.Auth.Refresh.Race.{refresh_race}
use cppbackend_api.Auth.Logout.{logout}
use cppbackend_api.Access.{
  JwtClaims, AuthenticatedUser, authenticate, extract_authenticated_user, bearer_token,
}
use cppbackend_api.Access.Decisions.{Passes, extract_authenticated_user_sound, logout-shuts_out}
use cppbackend_api.Examples.{program, svc, c, c2, alice, db, s1, r1}

abbrev req : RefreshTokenRequest
req = record { refresh_token = "t1" }

abbrev db' : Db
db' = (refresh svc c db req).1

abbrev resp : ApiResponse TokenResponse
resp =
    respond (token_response "jwt.jti-a" "token-a" "s1" (map_user_row 1000 alice))
      "Token refreshed successfully" 200 1000

refreshed_once : refresh svc c db req ≡ (ok resp, db')
unfolding program
refreshed_once = refl

refresh_sound_example :
    (r : SessionRow) × (u : User) × (find_first
        (λ q. str_eq q.refresh_token_hash (svc.sha256_hex req.refresh_token))
        db.sessions
      ≡ some r)
    × (is_revoked r.session ≡ false)
    × (is_expired r.session c.now ≡ false)
    × (find_first (has_id r.user_id) db.users ≡ some u)
    × (u.is_active ≡ true)
    × (resp ≡ refreshed svc c r.id u)
    × (db'.sessions ≡ rotated_sessions svc c db r.id)
refresh_sound_example = refresh_sound svc c db db' req resp refreshed_once

refresh_replay_example :
    ((refresh svc c2 db' req).0 ≡ err invalid_token)
    × (select (of_user r1.user_id) (refresh svc c2 db' req).1.sessions ≡ [])
refresh_replay_example =
    refresh_replay svc c c2 db db' req resp r1 refreshed_once refl refl refl refl refl refl

abbrev db1 : Db
db1 = (refresh_session svc c db s1).1

first : refresh_session svc c db s1 ≡ (ok resp, db1)
unfolding program
first = refl

unique : unique_jti (rotated_sessions svc c2 db1 s1.id) ≡ true
unfolding program
unique = refl

refresh_race_example : is_ok (refresh_session svc c2 db1 s1).0 ≡ true
refresh_race_example = refresh_race svc c c2 db db1 s1 resp refl first refl refl refl unique

-- The token's own validation: "jwt" is one of alice's.
abbrev claims : JwtClaims
claims = record {
  iss = "api";
  sub = "u1";
  aud = "app";
  iat = pos 900;
  nbf = pos 900;
  exp = pos 1800;
  jti = "j-s1";
  sid = "s1";
  role = "user";
  kid = "k1";
}

abbrev validate : String → Result JwtClaims
validate token = ok claims

abbrev who : AuthenticatedUser
who = record { id = "u1"; email = "alice@b.co"; role = "user"; session_id = "s1"; jti = "j-s1" }

passed : extract_authenticated_user validate c db "Bearer jwt" ≡ ok who
unfolding program
passed = refl

extract_authenticated_user_sound_example :
    (token : String) × (claims : JwtClaims) × (bearer_token "Bearer jwt" ≡ some token)
    × (validate token ≡ ok claims)
    × Passes c db claims who
extract_authenticated_user_sound_example =
    extract_authenticated_user_sound validate c db "Bearer jwt" who passed

logged_out :
    logout c db "s1" "u1"
    ≡ (ok (respond_void "Session terminated successfully" 200 1000), (logout c db "s1" "u1").1)
unfolding program
logged_out = refl

logout-shuts_out_example : is_ok (authenticate c2 (logout c db "s1" "u1").1 claims) ≡ false
logout-shuts_out_example =
    logout-shuts_out c c2 db (logout c db "s1" "u1").1 "u1"
      (respond_void "Session terminated successfully" 200 1000) claims logged_out
