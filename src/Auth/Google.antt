-- ===== src/Auth/Google.antt =====
-- AuthUseCases::loginWithGoogle and getGoogleAuthUrl. Google's answers are those of the service.
pub mod Frames
pub mod State
pub mod Identity
use cppbackend_api.Base.{
  ℕ, ◌+◌, Bool, true, false, not, ◌&&◌, Option, none, some, String, append, if◌then◌else◌, is_empty,
}
use cppbackend_api.Domain.Result.{Result, ok, err, DomainError, fail_with, ApiResponse, respond}
use cppbackend_api.Domain.Entities.{User, CacheEntry, is_entry_expired}
use cppbackend_api.Db.{Db}
use cppbackend_api.Db.Users.{
  find_user_by_google_id, find_user_by_email, find_user_by_id, link_google_account, create_user,
}
use cppbackend_api.Db.Cache.{get_cached, set_cached, remove_cached}
use cppbackend_api.Db.Audit.{record_audit}
use cppbackend_api.Auth.{
  Services, Call, GoogleUserInfo, GoogleAuthService, TokenResponse, audit_log, start_session,
}

pub record GoogleLoginRequest : Type 0 where
  pub id_token : String
  pub code : String
  pub code_verifier : String
  pub state : String
  pub device_name : String
  pub client_type : String

abbrev pub state_key : String → String
state_key state = append "pkce:state:" state

abbrev pub bad_state : DomainError
bad_state =
    fail_with 401 "Invalid or expired state" "State parameter is invalid, forged, or has expired."

-- The verifier that the cache holds for a state; it is purged at once.
unfoldable pub cached_verifier : Call → Db → String → Result String × Db
cached_verifier c db state = elim (get_cached (c.outcome 0) c.now db (state_key state)) [
  | none ↦ (err bad_state, db)
  | some entry ↦
      if not (is_entry_expired entry c.now)
      then (ok entry.value, (remove_cached (c.outcome 1) db (state_key state)).1)
      else (err bad_state, db)
]

unfoldable pub effective_verifier : Services → Call → Db → GoogleLoginRequest → Result String × Db
effective_verifier svc c db req =
    if is_empty req.code_verifier && not (is_empty req.state) && svc.has_cache
    then cached_verifier c db req.state
    else (ok req.code_verifier, db)

-- `exchangeAuthCode` where there is a verifier.
unfoldable pub exchange :
    GoogleAuthService → GoogleLoginRequest → Result String × Db → Result GoogleUserInfo × Db
exchange google req (ok verifier, db) = (google.exchange_auth_code req.code verifier, db)
exchange google req (err e, db) = (err e, db)

-- Who logs in, by an id token or by a code.
unfoldable pub identify :
    Services → Call → Db → GoogleAuthService → GoogleLoginRequest → Result GoogleUserInfo × Db
identify svc c db google req =
    if not (is_empty req.id_token)
    then (google.verify_id_token req.id_token, db)
    else if not (is_empty req.code)
    then exchange google req (effective_verifier svc c db req)
    else (err (fail_with 400 "Missing token" "Provide idToken or code."), db)

abbrev pub google_user : Call → GoogleUserInfo → User
google_user c info = record {
  id = "";
  email = info.email;
  password_hash = none;
  role = "user";
  is_active = true;
  failed_login_attempts = 0;
  locked_until = none;
  created_at = c.now;
  updated_at = c.now;
  google_id = some info.google_id;
  auth_provider = "google";
  avatar_url = if is_empty info.picture then none else some info.picture;
}

abbrev disabled : DomainError
disabled = fail_with 403 "Account disabled" "User account is deactivated."

-- Link the account that has the same email.
unfoldable pub link_account : Call → Db → GoogleUserInfo → User → Db
link_account c db info user =
    record_audit (c.outcome 8)
      (link_google_account (c.outcome 4) c.now db user.id info.google_id info.picture).1
      (audit_log c "AUTH_GOOGLE_LINKED" (some user.id) none
        (append "Linked Google account to existing user with matching email: " info.email))

unfoldable pub finish_signup : Call → User × Db → Result (Option User) × Db
finish_signup c (made, db) =
    if is_empty made.id
    then (err (fail_with 500 "Google signup error" "Failed to create user record."), db)
    else (
      ok (some made),
      record_audit (c.outcome 11) db (
          audit_log c "AUTH_GOOGLE_REGISTER" (some made.id) none
            "New user registered via Google Sign-In."),
    )

-- The user by Google id, else by email with linking, else a new one.
unfoldable pub target_user : Call → Db → GoogleUserInfo → Result (Option User) × Db
target_user c db info = elim (find_user_by_google_id (c.outcome 2) c.now db info.google_id) [
  | some user ↦ (ok (some user), db)
  | none ↦ elim (find_user_by_email (c.outcome 3) c.now db info.email) [
    | some user ↦
        let linked = link_account c db info user in
        (ok (find_user_by_id (c.outcome 9) c.now linked user.id), linked)
    | none ↦
        finish_signup c (create_user (c.outcome 10) c.drawn_user_id c.now db (google_user c info))
  ]
]

unfoldable pub admit :
    Services
    → Call
    → GoogleLoginRequest
    → Result (Option User) × Db
    → Result (ApiResponse TokenResponse) × Db
admit svc c req (err e, db) = (err e, db)
admit svc c req (ok none, db) = (err disabled, db)
admit svc c req (ok (some user), db) =
    if user.is_active
    then start_session svc c db user 30
        (if is_empty req.device_name then "Google Client" else req.device_name)
        (if is_empty req.client_type then "browser" else req.client_type) "AUTH_GOOGLE_SUCCESS"
        "Session initiated via Google OAuth2/OIDC" "Google authentication successful"
    else (err disabled, db)

unfoldable pub admit_identified :
    Services
    → Call
    → GoogleLoginRequest
    → Result GoogleUserInfo × Db
    → Result (ApiResponse TokenResponse) × Db
admit_identified svc c req (err e, db) = (err e, db)
admit_identified svc c req (ok info, db) = admit svc c req (target_user c db info)

unfoldable pub login_with_google :
    Services → Call → Db → GoogleLoginRequest → Result (ApiResponse TokenResponse) × Db
login_with_google svc c db req = elim svc.google [
  | none ↦ (
    err (
        fail_with 501 "Google authentication unavailable"
          "Google OAuth2 service is not enabled on this server."),
    db,
  )
  | some google ↦ admit_identified svc c req (identify svc c db google req)
]

pub record GoogleAuthUrlResponse : Type 0 where
  pub auth_url : String
  pub state : String
  pub code_verifier : String
  pub code_challenge : String

abbrev pub final_state : Call → String → String
final_state c state = if is_empty state then c.drawn_token else state

-- The verifier is cached under the state for ten minutes.
unfoldable pub get_google_auth_url :
    Services → Call → Db → String → Result (ApiResponse GoogleAuthUrlResponse) × Db
get_google_auth_url svc c db state = elim svc.google [
  | none ↦ (err (fail_with 501 "Google service not configured" "Google OAuth2 is not enabled."), db)
  | some google ↦
      let challenge = google.generate_code_challenge c.drawn_verifier in
      (
        ok (
            respond
              (record {
                auth_url = google.get_authorization_url (final_state c state) challenge;
                state = final_state c state;
                code_verifier = c.drawn_verifier;
                code_challenge = challenge;
              })
              "Google authorization URL generated with RFC 7636 PKCE" 200 c.now),
        if svc.has_cache
            then set_cached (c.outcome 0) c.now db (state_key (final_state c state))
                c.drawn_verifier 600
            else db,
      )
]
