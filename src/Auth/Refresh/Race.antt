-- ===== src/Auth/Refresh/Race.antt =====
-- Two refreshes with one token that both read the session before either writes it. The lock that
-- `findByRefreshTokenHash` takes ends with that call's own transaction.
use cppbackend_api.Base.{
  ℕ, ◌+◌, ◌≡◌, refl, sym, ap, ◌∙◌, Bool, true, false, ◌&&◌, inl, inr, some, List, [], ◌∷◌, String,
  str_eq, arith, find_first, update_where, any, Option-cases,
}
use cppbackend_api.Domain.Result.{Result, ok, ApiResponse, is_ok}
use cppbackend_api.Domain.Entities.{User, Session, is_expired}
use cppbackend_api.Db.{Db, SessionRow, Outcome, commits}
use cppbackend_api.Db.Users.{find_user, find_user_by_id, map_user_row}
use cppbackend_api.Db.Sessions.{update_refresh_token, rotated, names_session, is_open, unique_jti}
use cppbackend_api.Db.Audit.{record_audit}
use cppbackend_api.Auth.{Services, Call, TokenResponse, seconds_of_days}
use cppbackend_api.Auth.Refresh.{refresh_session, rotate, finish_rotation}
use cppbackend_api.Auth.Expected.{rotated_sessions}
use cppbackend_api.Auth.Refresh.Rotation.{has_id, refresh_session-ok}

still_there :
    (sid hash jti : String) (expires now : ℕ) (rows : List SessionRow)
    → any (λ r. str_eq r.id sid && is_open r) rows ≡ true
    → any
        (λ r. names_session sid r && is_open r)
        (update_where (λ r. names_session sid r && is_open r) (rotated hash jti expires now) rows)
      ≡ true
still_there sid hash jti expires now [] h = h
still_there sid hash jti expires now (r ∷ rows) h =
    ground (arith, still_there sid hash jti expires now rows)

finish_rotation-users :
    (svc : Services) (c : Call) (s : Session) (user : User) (done : Bool × Db)
    → (finish_rotation svc c s user done).1.users ≡ done.1.users
unfolding finish_rotation record_audit
finish_rotation-users svc c s user (updated, db) = ground arith

rotate-users :
    (svc : Services) (c : Call) (db : Db) (s : Session) → (rotate svc c db s).1.users ≡ db.users
unfolding rotate update_refresh_token
rotate-users svc c db s = ground arith

refresh_session-users :
    (svc : Services) (c : Call) (db : Db) (s : Session)
    → (refresh_session svc c db s).1.users ≡ db.users
unfolding refresh_session
refresh_session-users svc c db s =
    elim (Option-cases (find_user_by_id (c.outcome 3) c.now db s.user_id)) [
      | inl e ↦ ground arith
      | inr (u, e) ↦
          ground
            (arith, finish_rotation-users svc c s u (rotate svc c db s), rotate-users svc c db s)
    ]

find_user_by_id-known :
    (o : Outcome) (now : ℕ) (db : Db) (id : String) (r : User)
    → o ≡ commits
    → find_first (has_id id) db.users ≡ some r
    → find_user_by_id o now db id ≡ some (map_user_row now r)
unfolding find_user_by_id find_user
find_user_by_id-known o now db id r e found = rw (e, found) refl

rotate-succeeds :
    (svc : Services) (c : Call) (db : Db) (s : Session)
    → c.outcome 4 ≡ commits
    → any (λ r. names_session s.id r && is_open r) db.sessions ≡ true
    → unique_jti (rotated_sessions svc c db s.id) ≡ true
    → (rotate svc c db s).0 ≡ true
unfolding rotate update_refresh_token
rotate-succeeds svc c db s commit hit unique = ground arith

-- Two refreshes with one token can both succeed: if a request that looked the session up has
-- rotated it, a second request that looked it up before that rotation rotates it again, where its
-- statements commit, the session has not expired and its jti is unique. Nothing refuses it as a
-- collision.
pub refresh_race :
    (svc : Services) (c c2 : Call) (db db1 : Db) (s : Session) (resp : ApiResponse TokenResponse)
    → any (λ r. str_eq r.id s.id && is_open r) db.sessions ≡ true
    → refresh_session svc c db s ≡ (ok resp, db1)
    → is_expired s c2.now ≡ false
    → c2.outcome 3 ≡ commits
    → c2.outcome 4 ≡ commits
    → unique_jti (rotated_sessions svc c2 db1 s.id) ≡ true
    → is_ok (refresh_session svc c2 db1 s).0 ≡ true
unfolding refresh_session finish_rotation map_user_row
refresh_race svc c c2 db db1 s resp there first fresh look write unique =
    let (_, u, known, active, answer, stored) = refresh_session-ok svc c db db1 s resp first in
    let same_users : db1.users ≡ db.users =
      sym (ap (λ (p : Result (ApiResponse TokenResponse) × Db). p.1.users) first)
      ∙ refresh_session-users svc c db s in
    let hit : any (λ r. names_session s.id r && is_open r) db1.sessions ≡ true = rw stored (
      still_there s.id (svc.sha256_hex c.drawn_token) c.drawn_jti (c.now + seconds_of_days 7) c.now
        db.sessions there) in
    ground (
      arith,
      find_user_by_id-known (c2.outcome 3) c2.now db1 s.user_id u look
          (ap (find_first (has_id s.user_id)) same_users ∙ known),
      rotate-succeeds svc c2 db1 s write hit unique,
    )
