-- ===== src/Auth/Google/Frames.antt =====
-- What follows the identification of a Google login leaves the cache alone.
use cppbackend_api.Base.{
  ℕ, ◌≡◌, refl, ◌∙◌, inl, inr, Option, none, some, String, arith, Bool-cases, Option-cases,
}
use cppbackend_api.Domain.Result.{Result, ok, err}
use cppbackend_api.Domain.Entities.{User, Session, AuditLog}
use cppbackend_api.Db.{Db, Outcome, commits}
use cppbackend_api.Db.Users.{
  find_user_by_google_id, find_user_by_email, link_google_account, create_user, update_user,
  reset_failed_attempts,
}
use cppbackend_api.Db.Sessions.{create_session}
use cppbackend_api.Db.Audit.{record_audit}
use cppbackend_api.Auth.{Services, Call, GoogleUserInfo, start_session, issue_tokens}
use cppbackend_api.Auth.Google.{
  GoogleLoginRequest, target_user, link_account, finish_signup, admit, admit_identified,
  google_user,
}

update_user-cache :
    (f : User → User) (o : Outcome) (db : Db) (id : String)
    → (update_user f o db id).1.cache ≡ db.cache
unfolding update_user
update_user-cache f o db id = ground arith

record_audit-cache :
    (o : Outcome) (db : Db) (log : AuditLog) → (record_audit o db log).cache ≡ db.cache
unfolding record_audit
record_audit-cache o db log = ground arith

create_user-cache :
    (o : Outcome) (id : String) (now : ℕ) (db : Db) (user : User)
    → (create_user o id now db user).1.cache ≡ db.cache
unfolding create_user
create_user-cache commits id now db user = ground arith
create_user-cache Outcome.refused id now db user = ground arith
create_user-cache Outcome.rolled_back id now db user = ground arith

create_session-cache :
    (o : Outcome) (id : String) (now : ℕ) (db : Db) (s : Session)
    → (create_session o id now db s).1.cache ≡ db.cache
unfolding create_session
create_session-cache o id now db s = ground arith

link_google_account-cache :
    (o : Outcome) (now : ℕ) (db : Db) (id gid avatar : String)
    → (link_google_account o now db id gid avatar).1.cache ≡ db.cache
unfolding link_google_account
link_google_account-cache o now db id gid avatar = ground arith

reset_failed_attempts-cache :
    (o : Outcome) (now : ℕ) (db : Db) (id : String)
    → (reset_failed_attempts o now db id).cache ≡ db.cache
unfolding reset_failed_attempts
reset_failed_attempts-cache o now db id = ground arith

issue_tokens-cache :
    (svc : Services) (c : Call) (user : User) (event reason message : String) (made : Session)
    (db : Db)
    → (issue_tokens svc c user event reason message (made, db)).1.cache ≡ db.cache
unfolding issue_tokens record_audit
issue_tokens-cache svc c user event reason message made db = ground arith

start_session-cache :
    (svc : Services) (c : Call) (db : Db) (user : User) (days : ℕ)
    (device client event reason message : String)
    → (start_session svc c db user days device client event reason message).1.cache ≡ db.cache
unfolding start_session
start_session-cache svc c db user days device client event reason message =
    issue_tokens-cache svc c user event reason message _ _
    ∙ create_session-cache (c.outcome 6) c.drawn_session_id c.now _ _
    ∙ reset_failed_attempts-cache (c.outcome 5) c.now db user.id

finish_signup-cache :
    (c : Call) (made : User) (db : Db) → (finish_signup c (made, db)).1.cache ≡ db.cache
unfolding finish_signup record_audit
finish_signup-cache c made db = ground arith

link_account-cache :
    (c : Call) (db : Db) (info : GoogleUserInfo) (user : User)
    → (link_account c db info user).cache ≡ db.cache
unfolding link_account
link_account-cache c db info user =
    record_audit-cache (c.outcome 8) _ _
    ∙ link_google_account-cache (c.outcome 4) c.now db user.id info.google_id info.picture

target_user-cache :
    (c : Call) (db : Db) (info : GoogleUserInfo) → (target_user c db info).1.cache ≡ db.cache
unfolding target_user
target_user-cache c db info =
    elim (Option-cases (find_user_by_google_id (c.outcome 2) c.now db info.google_id)) [
      | inr (u, e) ↦ ground arith
      | inl e ↦ elim (Option-cases (find_user_by_email (c.outcome 3) c.now db info.email)) [
        | inr (u, e') ↦ ground (arith, link_account-cache c db info u)
        | inl e' ↦
            let made : User × Db =
              create_user (c.outcome 10) c.drawn_user_id c.now db (google_user c info) in
            ground (
              arith,
              finish_signup-cache c made.0 made.1,
              create_user-cache (c.outcome 10) c.drawn_user_id c.now db (google_user c info),
            )
      ]
    ]

admit-cache :
    (svc : Services) (c : Call) (req : GoogleLoginRequest) (r : Result (Option User)) (db : Db)
    → (admit svc c req (r, db)).1.cache ≡ db.cache
unfolding admit
admit-cache svc c req (err e) db = refl
admit-cache svc c req (ok none) db = refl
admit-cache svc c req (ok (some user)) db = elim (Bool-cases user.is_active) [
  | inl e ↦ simp e (start_session-cache svc c db user 30 _ _ _ _ _)
  | inr e ↦ simp e
]

-- What follows the identification leaves the cache alone.
pub admit_identified-cache :
    (svc : Services) (c : Call) (req : GoogleLoginRequest) (r : Result GoogleUserInfo) (db : Db)
    → (admit_identified svc c req (r, db)).1.cache ≡ db.cache
unfolding admit_identified
admit_identified-cache svc c req (err e) db = refl
admit_identified-cache svc c req (ok info) db =
    admit-cache svc c req _ _ ∙ target_user-cache c db info
