-- ===== src/Access/Decisions.antt =====
-- Who passes `extractAuthenticatedUser`, and that ending a session shuts its tokens out.
use cppbackend_api.Base.{
  ◌≡◌, refl, sym, ap, ◌∙◌, Bool, true, false, inl, inr, some, String, arith, find_first,
  Option-cases,
}
use cppbackend_api.Domain.Result.{Result, ok, ApiResponse, is_ok, Result-cases}
use cppbackend_api.Domain.Entities.{User, is_revoked, is_expired}
use cppbackend_api.Db.{Db, SessionRow, Outcome, commits}
use cppbackend_api.Db.Users.{find_user, find_user_by_id, map_user_row}
use cppbackend_api.Db.Sessions.{
  find_session, find_session_by_id, is_token_revoked, names_session, revoke_session,
}
use cppbackend_api.Db.Sessions.Revoking.{find_session_by_id-row, revoke_session-found_revoked}
use cppbackend_api.Db.Audit.{record_audit}
use cppbackend_api.Auth.{Call}
use cppbackend_api.Auth.Login.Soundness.{find_user-row}
use cppbackend_api.Auth.Logout.{logout, finish_logout}
use cppbackend_api.Auth.Refresh.Rotation.{has_id}
use cppbackend_api.Access.{
  JwtClaims, AuthenticatedUser, authenticate, authenticate_user, extract_authenticated_user,
  bearer_token,
}

-- What the checks after the token's own validation establish: the jti is not reported as revoked;
-- the session could be read, is stored, and is neither revoked nor expired; the user is stored and
-- active; and the identity is that of the stored user, with the stored role.
pub record Passes (c : Call) (db : Db) (claims : JwtClaims) (who : AuthenticatedUser) : Type 0 where
  pub row : SessionRow
  pub user : User
  pub not_revoked : is_token_revoked (c.outcome 0) db claims.jti ≡ false
  pub session_read : c.outcome 1 ≡ commits
  pub session_stored : find_first (names_session claims.sid) db.sessions ≡ some row
  pub session_open : is_revoked row.session ≡ false
  pub session_fresh : is_expired row.session c.now ≡ false
  pub user_stored : find_first (has_id claims.sub) db.users ≡ some user
  pub user_active : user.is_active ≡ true
  pub identity : who ≡ record {
    id = user.id;
    email = user.email;
    role = user.role;
    session_id = claims.sid;
    jti = claims.jti;
  }

authenticate-Passes :
    (c : Call) (db : Db) (claims : JwtClaims) (who : AuthenticatedUser)
    → authenticate c db claims ≡ ok who
    → Passes c db claims who
unfolding authenticate authenticate_user find_user_by_id map_user_row
authenticate-Passes c db claims who h =
    elim (Option-cases (find_session_by_id (c.outcome 1) db claims.sid)) [
      | inl e ↦ absurd (ground arith)
      | inr (s, e) ↦
          let (r, commit, found, same) = find_session_by_id-row (c.outcome 1) db claims.sid s e in
          elim (Option-cases (find_user (has_id claims.sub) (c.outcome 2) c.now db)) [
            | inl missing ↦ absurd (ground arith)
            | inr (v, known) ↦
                let (u, stored, mapped) =
                  find_user-row (has_id claims.sub) (c.outcome 2) c.now db v known in
                record {
                  row = r;
                  user = u;
                  not_revoked = ground arith;
                  session_read = commit;
                  session_stored = found;
                  session_open = ground arith;
                  session_fresh = ground arith;
                  user_stored = stored;
                  user_active = ground arith;
                  identity = ground arith;
                }
          ]
    ]

-- Whoever passes has a Bearer header whose token is valid, and passes all the checks on its claims:
-- the jti, the session, the user's account.
pub extract_authenticated_user_sound :
    (validate : String → Result JwtClaims) (c : Call) (db : Db) (header : String)
    (who : AuthenticatedUser)
    → extract_authenticated_user validate c db header ≡ ok who
    → (token : String) × (claims : JwtClaims) × (bearer_token header ≡ some token)
      × (validate token ≡ ok claims)
      × Passes c db claims who
unfolding extract_authenticated_user
extract_authenticated_user_sound validate c db header who h =
    elim (Option-cases (bearer_token header)) [
      | inl e ↦ absurd (ground arith)
      | inr (token, e) ↦ elim (Result-cases (validate token)) [
        | inr (failure, bad) ↦ absurd (ground arith)
        | inl (claims, valid) ↦
            (token, claims, e, valid, authenticate-Passes c db claims who (ground arith))
      ]
    ]

find_session_by_id-known :
    (o : Outcome) (db : Db) (sid : String) (r : SessionRow)
    → o ≡ commits
    → find_first (names_session sid) db.sessions ≡ some r
    → find_session_by_id o db sid ≡ some r.session
unfolding find_session_by_id find_session
find_session_by_id-known o db sid r commit found = rw (commit, found)

logout-ok :
    (c : Call) (db db' : Db) (sid uid : String) (resp : ApiResponse (Unit {0}))
    → logout c db sid uid ≡ (ok resp, db')
    → (mid : Db) × (revoke_session (c.outcome 0) c.now db sid "User logout" ≡ (true, mid))
      × (db'.sessions ≡ mid.sessions)
unfolding logout finish_logout record_audit
logout-ok c db db' sid uid resp h =
    let done : Bool × Db = revoke_session (c.outcome 0) c.now db sid "User logout" in
    (done.1, ground arith, ground arith)

-- After a logout that succeeds, a token of that session never passes again on the tables as the
-- logout left them, whatever its jti and user, at any instant and however the reads fare.
pub logout-shuts_out :
    (c c2 : Call) (db db' : Db) (uid : String) (resp : ApiResponse (Unit {0})) (claims : JwtClaims)
    → logout c db claims.sid uid ≡ (ok resp, db')
    → is_ok (authenticate c2 db' claims) ≡ false
logout-shuts_out c c2 db db' uid resp claims h =
    let (mid, revoked, same) = logout-ok c db db' claims.sid uid resp h in
    elim (Result-cases (authenticate c2 db' claims)) [
      | inr (failure, e) ↦ rw e
      | inl (who, e) ↦
          let passes = authenticate-Passes c2 db' claims who e in
          let read =
            find_session_by_id-known commits mid claims.sid passes.row refl
              (ap (find_first (names_session claims.sid)) (sym same) ∙ passes.session_stored) in
          let closed =
            revoke_session-found_revoked (c.outcome 0) commits c.now db mid claims.sid "User logout"
              passes.row.session revoked read in
          cc (sym closed ∙ passes.session_open)
    ]
