-- ===== src/Examples/Google.antt =====
-- Google logins on the example tables.
use cppbackend_api.Base.{some, ◌≡◌, refl, true, String}
use cppbackend_api.Domain.Result.{ok, err, is_ok}
use cppbackend_api.Db.{Db}
use cppbackend_api.Auth.Google.{
  GoogleLoginRequest, cached_verifier, login_with_google, get_google_auth_url, bad_state, identify,
  google_user,
}
use cppbackend_api.Auth.Google.Identity.{IsAccount, login_with_google_identity, google_answer}
use cppbackend_api.Auth.Google.State.{google_state_single_use}
use cppbackend_api.Domain.Result.{ApiResponse}
use cppbackend_api.Domain.Entities.{User}
use cppbackend_api.Auth.{GoogleUserInfo, GoogleAuthService, TokenResponse}
use cppbackend_api.Examples.{program, svc, google, gmail, c, c2, db}

abbrev req : GoogleLoginRequest
req = record {
  id_token = "";
  code = "code";
  code_verifier = "";
  state = "st";
  device_name = "";
  client_type = "";
}

abbrev asked : Db
asked = (get_google_auth_url svc c db "st").1

verifier_found : is_ok (cached_verifier c2 asked "st").0 ≡ true
unfolding program
verifier_found = refl

google_state_single_use_example :
    (login_with_google svc c2 (login_with_google svc c2 asked req).1 req).0 ≡ err bad_state
google_state_single_use_example =
    google_state_single_use svc google c2 c2 asked req refl refl refl refl refl refl refl
      verifier_found

abbrev db' : Db
db' = (login_with_google svc c2 asked req).1

abbrev resp : ApiResponse TokenResponse
resp = google_answer svc c2 "session-b" (record (google_user c2 gmail) { id = "user-b" })

logged_in : login_with_google svc c2 asked req ≡ (ok resp, db')
unfolding program
logged_in = refl

login_with_google_identity_example :
    (google : GoogleAuthService) × (info : GoogleUserInfo) × (u : User) × (sid : String)
    × (svc.google ≡ some google)
    × ((identify svc c2 asked google req).0 ≡ ok info)
    × IsAccount c2 asked.users info u
    × (u.google_id ≡ some info.google_id)
    × (u.is_active ≡ true)
    × (resp ≡ google_answer svc c2 sid u)
login_with_google_identity_example =
    login_with_google_identity svc c2 asked db' req resp refl refl logged_in
