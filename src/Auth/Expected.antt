-- ===== src/Auth/Expected.antt =====
-- What the interface of AuthUseCases promises, field by field and apart from the code: the answer
-- with the tokens, and the rows of a new session and of a rotated one.
use cppbackend_api.Base.{
  ◌+◌, true, not, ◌&&◌, ◌||◌, none, some, List, [], String, str_eq, is_some, update_where,
}
use cppbackend_api.Domain.Result.{ApiResponse}
use cppbackend_api.Domain.Entities.{User}
use cppbackend_api.Db.{Db, SessionRow}
use cppbackend_api.Auth.{Services, Call, TokenResponse, or_empty}

-- The access token of fifteen minutes for the user, role, session and jti, and the drawn refresh
-- token, of the session `sid` of the user `u`.
abbrev pub tokens_for : Services → Call → String → User → TokenResponse
tokens_for svc c sid u = record {
  access_token = svc.create_access_token u.id u.role sid c.drawn_jti 900;
  refresh_token = c.drawn_token;
  token_type = "Bearer";
  expires_in = 900;
  session_id = sid;
  user = record {
    id = u.id;
    email = u.email;
    role = u.role;
    auth_provider = u.auth_provider;
    avatar_url = or_empty u.avatar_url;
    google_linked = is_some u.google_id;
  };
}

abbrev pub signed_in : Services → Call → String → User → String → ApiResponse TokenResponse
signed_in svc c sid u message = record {
  success = true;
  status_code = 200;
  message = message;
  payload = some (tokens_for svc c sid u);
  errors = [];
  timestamp = c.now;
}

-- The row of a session of `u`, open for seven days, with the hash of the drawn refresh token.
abbrev pub week_session : Services → Call → User → String → String → SessionRow
week_session svc c u device client = record {
  session = record {
    id = c.drawn_session_id;
    user_id = u.id;
    jti = c.drawn_jti;
    refresh_token_hash = svc.sha256_hex c.drawn_token;
    created_at = c.now;
    last_seen_at = c.now;
    expires_at = c.now + 604800;
    revoked_at = none;
    revocation_reason = none;
    ip_address = c.ip_address;
    user_agent = c.user_agent;
    device_name = device;
    client_type = client;
  };
  previous_refresh_token_hash = none;
}

-- A row after its rotation: the new hash, jti and expiry (seven days), the old hash as the previous
-- one; all else as it was.
abbrev pub renewed : Services → Call → SessionRow → SessionRow
renewed svc c r = record {
  session = record r.session {
    refresh_token_hash = svc.sha256_hex c.drawn_token;
    jti = c.drawn_jti;
    last_seen_at = c.now;
    expires_at = c.now + 604800;
  };
  previous_refresh_token_hash = some r.refresh_token_hash;
}

-- The sessions after a rotation: the open rows that `sid` names are renewed.
abbrev pub rotated_sessions : Services → Call → Db → String → List SessionRow
rotated_sessions svc c db sid =
    update_where (λ r. (str_eq r.id sid || str_eq r.jti sid) && not (is_some r.revoked_at))
      (renewed svc c) db.sessions
