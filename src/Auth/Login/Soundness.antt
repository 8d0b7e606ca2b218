-- ===== src/Auth/Login/Soundness.antt =====
-- Who can log in with a password, and what a login leaves behind.
use cppbackend_api.Base.{
  ℕ, ◌≡◌, ◌⊎◌, refl, Bool, true, false, inl, inr, some, List, [], ◌∷◌, ◌++◌, String, str_eq, append,
  is_empty, arith, find_first, Option-cases,
}
use cppbackend_api.Domain.Result.{ok, ApiResponse, respond}
use cppbackend_api.Domain.Entities.{User, Session, AuditLog}
use cppbackend_api.Validation.Credentials.{LoginRequest}
use cppbackend_api.Db.{Db, SessionRow, Outcome, commits, rolled_back}
use cppbackend_api.Db.Users.{
  find_user, find_user_by_email, map_user_row, reset_failed_attempts, update_user,
}
use cppbackend_api.Db.Sessions.{create_session, inserted_session}
use cppbackend_api.Db.Audit.{record_audit}
use cppbackend_api.Auth.{
  Services, Call, TokenResponse, token_response, new_session, start_session, issue_tokens,
}
use cppbackend_api.Auth.Expected.{signed_in, week_session}
use cppbackend_api.Auth.Login.{login, login_user, check_password, wrong_password, unknown_email}

abbrev pub has_email : String → User → Bool
has_email email r = str_eq r.email email

-- The stored user behind one that was found.
pub find_user-row :
    (p : User → Bool) (o : Outcome) (now : ℕ) (db : Db) (u : User)
    → find_user p o now db ≡ some u
    → (r : User) × (find_first p db.users ≡ some r) × (u ≡ map_user_row now r)
unfolding find_user
find_user-row p o now db u h = elim (Option-cases (find_first p db.users)) [
  | inl e ↦ absurd (ground arith)
  | inr (r, e) ↦ (r, e, ground arith)
]

pub update_user-sessions :
    (f : User → User) (o : Outcome) (db : Db) (id : String)
    → (update_user f o db id).1.sessions ≡ db.sessions
unfolding update_user
update_user-sessions f o db id = ground arith

pub record_audit-sessions :
    (o : Outcome) (db : Db) (log : AuditLog) → (record_audit o db log).sessions ≡ db.sessions
unfolding record_audit
record_audit-sessions o db log = ground arith

pub record_audit-revocations :
    (o : Outcome) (db : Db) (log : AuditLog) → (record_audit o db log).revocations ≡ db.revocations
unfolding record_audit
record_audit-revocations o db log = ground arith

-- What `start_session` gives back and stores, where it succeeds.
pub start_session-ok :
    (svc : Services) (c : Call) (db db' : Db) (user : User) (days : ℕ)
    (device client event reason message : String) (resp : ApiResponse TokenResponse)
    → start_session svc c db user days device client event reason message ≡ (ok resp, db')
    → (sid : String) × (resp
        ≡ respond
            (token_response
              (svc.create_access_token user.id user.role sid c.drawn_jti 900)
              c.drawn_token
              sid
              user)
            message
            200
            c.now)
unfolding start_session issue_tokens
start_session-ok svc c db db' user days device client event reason message resp h = (
  (create_session (c.outcome 6) c.drawn_session_id c.now
      (reset_failed_attempts (c.outcome 5) c.now db user.id)
      (new_session svc c user days device client)).0.id,
  ground arith,
)

create_session-stored :
    (o : Outcome) (id : String) (now : ℕ) (db : Db) (s : Session) (rows : List SessionRow)
    → is_empty s.id ≡ true
    → db.sessions ≡ rows
    → is_empty (create_session o id now db s).0.id ≡ false
    → ((o ≡ commits)
        × ((create_session o id now db s).1.sessions ≡ rows ++ inserted_session id now s ∷ []))
      ⊎ ((o ≡ rolled_back) × ((create_session o id now db s).1.sessions ≡ rows))
unfolding create_session
create_session-stored o id now db s rows e same h = ground arith

issue_tokens-sessions :
    (svc : Services) (c : Call) (user : User) (event reason message : String) (made : Session)
    (db db' : Db) (resp : ApiResponse TokenResponse)
    → issue_tokens svc c user event reason message (made, db) ≡ (ok resp, db')
    → (is_empty made.id ≡ false) × (db'.sessions ≡ db.sessions)
unfolding issue_tokens record_audit
issue_tokens-sessions svc c user event reason message made db db' resp h = ground arith

pub reset_failed_attempts-sessions :
    (o : Outcome) (now : ℕ) (db : Db) (id : String)
    → (reset_failed_attempts o now db id).sessions ≡ db.sessions
unfolding reset_failed_attempts
reset_failed_attempts-sessions o now db id = ground arith

-- The session of a login that succeeds is stored exactly where its insertion committed; where the
-- insertion was undone after its row came back, the tokens are issued all the same.
pub start_session_stored :
    (svc : Services) (c : Call) (db db' : Db) (user : User) (days : ℕ)
    (device client event reason message : String) (resp : ApiResponse TokenResponse)
    → start_session svc c db user days device client event reason message ≡ (ok resp, db')
    → ((c.outcome 6 ≡ commits)
        × (db'.sessions
            ≡ db.sessions
              ++ inserted_session c.drawn_session_id c.now
                  (new_session svc c user days device client)
                ∷ []))
      ⊎ ((c.outcome 6 ≡ rolled_back) × (db'.sessions ≡ db.sessions))
unfolding start_session
start_session_stored svc c db db' user days device client event reason message resp h =
    let reset : Db = reset_failed_attempts (c.outcome 5) c.now db user.id in
    let s : Session = new_session svc c user days device client in
    let made : Session × Db = create_session (c.outcome 6) c.drawn_session_id c.now reset s in
    let (named, same) =
      issue_tokens-sessions svc c user event reason message made.0 made.1 db' resp h in
    rw same (
      create_session-stored (c.outcome 6) c.drawn_session_id c.now reset s db.sessions refl
        (reset_failed_attempts-sessions (c.outcome 5) c.now db user.id) named)

-- The wrong-password branch never succeeds, nor does any branch before the password's check: a
-- success is a success of `start_session` for the user that was looked up.
login_user-ok :
    (svc : Services) (c : Call) (db db' : Db) (req : LoginRequest) (device client : String)
    (user : User) (resp : ApiResponse TokenResponse)
    → login_user svc c db req device client user ≡ (ok resp, db')
    → (hash : String) × (user.is_active ≡ true)
      × (user.password_hash ≡ some hash)
      × (svc.verify_password req.password hash ≡ true)
      × (start_session svc c db user 7 device client "LOGIN_SUCCESS"
            (append "Session initiated on device: " device)
            "Login successful"
          ≡ (ok resp, db'))
unfolding login_user check_password wrong_password
login_user-ok svc c db db' req device client user resp h = elim (Option-cases user.password_hash) [
  | inl e ↦ absurd (ground arith)
  | inr (hash, e) ↦ (hash, ground arith, e, ground arith, ground arith)
]

pub login-ok :
    (svc : Services) (c : Call) (db db' : Db) (req : LoginRequest) (device client : String)
    (resp : ApiResponse TokenResponse)
    → login svc c db req device client ≡ (ok resp, db')
    → (r : User) × (find_first (has_email req.email) db.users ≡ some r)
      × (login_user svc c db req device client (map_user_row c.now r) ≡ (ok resp, db'))
unfolding login unknown_email find_user_by_email
login-ok svc c db db' req device client resp h =
    elim (Option-cases (find_user_by_email (c.outcome 0) c.now db req.email)) [
      | inl e ↦ absurd (ground arith)
      | inr (u, e) ↦
          let (r, found, mapped) = find_user-row (has_email req.email) (c.outcome 0) c.now db u e in
          (r, found, ground arith)
    ]

-- A login that succeeds is one of a user that is stored under the given email, is active, has a
-- password hash and gave a password that the hasher accepts for it. The response names this user
-- and one session, and carries the refresh token that was drawn and an access token of fifteen
-- minutes for that user, role and session.
pub login_sound :
    (svc : Services) (c : Call) (db db' : Db) (req : LoginRequest) (device client : String)
    (resp : ApiResponse TokenResponse)
    → login svc c db req device client ≡ (ok resp, db')
    → (r : User) × (hash : String) × (sid : String) × (find_first (has_email req.email) db.users
        ≡ some r)
      × (r.is_active ≡ true)
      × (r.password_hash ≡ some hash)
      × (svc.verify_password req.password hash ≡ true)
      × (resp ≡ signed_in svc c sid (map_user_row c.now r) "Login successful")
unfolding map_user_row
login_sound svc c db db' req device client resp h =
    let (r, found, e) = login-ok svc c db db' req device client resp h in
    let (hash, active, password, verified, started) =
      login_user-ok svc c db db' req device client (map_user_row c.now r) resp e in
    let (sid, same) =
      start_session-ok svc c db db' (map_user_row c.now r) 7 device client _ _ _ resp started in
    (r, hash, sid, found, active, password, verified, same)

-- Where a login succeeds, either the insertion of its session committed, and the sessions are the
-- old ones and the new one (with the hash of the drawn refresh token, open for seven days), or the
-- insertion was undone after its row came back, and no session was added.
pub login_stored :
    (svc : Services) (c : Call) (db db' : Db) (req : LoginRequest) (device client : String)
    (resp : ApiResponse TokenResponse)
    → login svc c db req device client ≡ (ok resp, db')
    → (r : User) × (find_first (has_email req.email) db.users ≡ some r)
      × (((c.outcome 6 ≡ commits)
            × (db'.sessions ≡ db.sessions ++ week_session svc c r device client ∷ []))
          ⊎ ((c.outcome 6 ≡ rolled_back) × (db'.sessions ≡ db.sessions)))
unfolding map_user_row
login_stored svc c db db' req device client resp h =
    let (r, found, e) = login-ok svc c db db' req device client resp h in
    let (hash, active, password, verified, started) =
      login_user-ok svc c db db' req device client (map_user_row c.now r) resp e in
    (
      r,
      found,
      start_session_stored svc c db db' (map_user_row c.now r) 7 device client _ _ _ resp started,
    )
