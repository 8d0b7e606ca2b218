-- ===== src/Auth/Refresh/Rotation.antt =====
-- What a refresh that succeeds needed, and how it leaves the session.
use cppbackend_api.Base.{
  ℕ, ◌+◌, ◌≡◌, ◌∙◌, Bool, true, false, ◌&&◌, inl, inr, some, String, str_eq, arith, find_first,
  update_where, any, Option-cases,
}
use cppbackend_api.Domain.Result.{ok, ApiResponse, respond}
use cppbackend_api.Domain.Entities.{User, Session, is_revoked, is_expired}
use cppbackend_api.Validation.Credentials.{RefreshTokenRequest}
use cppbackend_api.Db.{Db, SessionRow, Outcome, commits}
use cppbackend_api.Db.Users.{find_user_by_id, map_user_row}
use cppbackend_api.Db.Sessions.{
  find_session_by_refresh_hash, update_refresh_token, rotated, names_session, is_open,
}
use cppbackend_api.Db.Audit.{record_audit}
use cppbackend_api.Auth.{Services, Call, TokenResponse, token_response, seconds_of_days}
use cppbackend_api.Auth.Expected.{signed_in, rotated_sessions}
use cppbackend_api.Auth.Login.Soundness.{find_user-row}
use cppbackend_api.Auth.Refresh.{refresh, refresh_found, refresh_session, rotate, finish_rotation}

-- A session that is found by a hash and is not revoked is a row with that current hash.
find_session_by_refresh_hash-row :
    (o : Outcome) (now : ℕ) (db : Db) (hash : String) (s : Session)
    → find_session_by_refresh_hash o now db hash ≡ some s
    → is_revoked s ≡ false
    → (r : SessionRow) × (find_first (λ q. str_eq q.refresh_token_hash hash) db.sessions ≡ some r)
      × (s ≡ r.session)
unfolding find_session_by_refresh_hash
find_session_by_refresh_hash-row o now db hash s h open_s =
    elim (Option-cases (find_first (λ q. str_eq q.refresh_token_hash hash) db.sessions)) [
      | inl e ↦ absurd (ground arith)
      | inr (r, e) ↦ (r, e, ground arith)
    ]

update_refresh_token-true :
    (o : Outcome) (now : ℕ) (db db' : Db) (sid hash jti : String) (expires : ℕ)
    → update_refresh_token o now db sid hash jti expires ≡ (true, db')
    → (o ≡ commits)
      × (any (λ r. names_session sid r && is_open r) db.sessions ≡ true)
      × (db'.sessions
          ≡ update_where
              (λ r. names_session sid r && is_open r)
              (rotated hash jti expires now)
              db.sessions)
unfolding update_refresh_token
update_refresh_token-true o now db db' sid hash jti expires h = ground arith

finish_rotation-ok :
    (svc : Services) (c : Call) (s : Session) (user : User) (updated : Bool) (db db' : Db)
    (resp : ApiResponse TokenResponse)
    → finish_rotation svc c s user (updated, db) ≡ (ok resp, db')
    → (updated ≡ true)
      × (resp
          ≡ respond
              (token_response
                (svc.create_access_token user.id user.role s.id c.drawn_jti 900)
                c.drawn_token
                s.id
                user)
              "Token refreshed successfully"
              200
              c.now)
      × (db'.sessions ≡ db.sessions)
unfolding finish_rotation record_audit
finish_rotation-ok svc c s user updated db db' resp h = ground arith

abbrev pub has_id : String → User → Bool
has_id id u = str_eq u.id id

find_user_by_id-row :
    (o : Outcome) (now : ℕ) (db : Db) (id : String) (u : User)
    → find_user_by_id o now db id ≡ some u
    → (r : User) × (find_first (has_id id) db.users ≡ some r) × (u ≡ map_user_row now r)
unfolding find_user_by_id
find_user_by_id-row o now db id u h = find_user-row (has_id id) o now db u h

abbrev pub refreshed : Services → Call → String → User → ApiResponse TokenResponse
refreshed svc c sid u = signed_in svc c sid (map_user_row c.now u) "Token refreshed successfully"

pub refresh_session-ok :
    (svc : Services) (c : Call) (db db' : Db) (s : Session) (resp : ApiResponse TokenResponse)
    → refresh_session svc c db s ≡ (ok resp, db')
    → (is_expired s c.now ≡ false)
      × (u : User) × (find_first (has_id s.user_id) db.users ≡ some u)
      × (u.is_active ≡ true)
      × (resp ≡ refreshed svc c s.id u)
      × (db'.sessions ≡ rotated_sessions svc c db s.id)
unfolding refresh_session rotate map_user_row
refresh_session-ok svc c db db' s resp h =
    elim (Option-cases (find_user_by_id (c.outcome 3) c.now db s.user_id)) [
      | inl e ↦ absurd (ground arith)
      | inr (u, e) ↦
          let (r, found, mapped) = find_user_by_id-row (c.outcome 3) c.now db s.user_id u e in
          let done : Bool × Db = rotate svc c db s in
          let (updated, same, kept) =
            finish_rotation-ok svc c s u done.0 done.1 db' resp (ground arith) in
          let (commit, hit, stored) =
            update_refresh_token-true (c.outcome 4) c.now db done.1 s.id
              (svc.sha256_hex c.drawn_token) c.drawn_jti (c.now + seconds_of_days 7)
              (ground arith) in
          (ground arith, r, found, ground arith, ground arith, kept ∙ stored)
    ]

-- A refresh that succeeds had a token whose hash is the current one of a stored session that is
-- neither revoked nor expired, of a stored and active user. The response names that session and
-- user and carries the new token; and the session's row has the new hash, jti and expiry (seven
-- days), with the presented token's hash kept as its previous one, all other rows being as before.
pub refresh_sound :
    (svc : Services) (c : Call) (db db' : Db) (req : RefreshTokenRequest)
    (resp : ApiResponse TokenResponse)
    → refresh svc c db req ≡ (ok resp, db')
    → (r : SessionRow) × (u : User) × (find_first
          (λ q. str_eq q.refresh_token_hash (svc.sha256_hex req.refresh_token))
          db.sessions
        ≡ some r)
      × (is_revoked r.session ≡ false)
      × (is_expired r.session c.now ≡ false)
      × (find_first (has_id r.user_id) db.users ≡ some u)
      × (u.is_active ≡ true)
      × (resp ≡ refreshed svc c r.id u)
      × (db'.sessions ≡ rotated_sessions svc c db r.id)
unfolding refresh refresh_found
refresh_sound svc c db db' req resp h =
    let hash : String = svc.sha256_hex req.refresh_token in
    elim (Option-cases (find_session_by_refresh_hash (c.outcome 0) c.now db hash)) [
      | inl e ↦ absurd (ground arith)
      | inr (s, e) ↦
          let open_s : is_revoked s ≡ false = ground arith in
          let (r, found, same) =
            find_session_by_refresh_hash-row (c.outcome 0) c.now db hash s e open_s in
          let (fresh, u, known, active, answer, stored) =
            refresh_session-ok svc c db db' s resp (ground arith) in
          (
            r,
            u,
            found,
            ground arith,
            ground arith,
            ground arith,
            active,
            ground arith,
            ground arith,
          )
    ]
