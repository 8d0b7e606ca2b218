-- ===== src/Db/Sessions.antt =====
-- Infrastructure/src/Persistence/PostgresSessionRepository.cpp.
pub mod Revoking
pub mod Listing
pub mod Order
use cppbackend_api.Base.{
  ℕ, ◌+◌, ◌-◌, Bool, true, false, not, ◌&&◌, ◌||◌, Option, none, some, List, [], ◌∷◌, ◌++◌, String,
  str_eq, if◌then◌else◌, ltb, leb, ◌==◌, is_some, is_empty, find_first, update_where, any, select,
  length, map,
}
use cppbackend_api.Domain.Entities.{Session, is_revoked}
use cppbackend_api.Db.{
  Db, SessionRow, Revocation, Outcome, commits, refused, rolled_back, committed, sql_eq,
}

-- (id::text = $1 OR jti = $1).
abbrev pub names_session : String → SessionRow → Bool
names_session sid r = str_eq r.id sid || str_eq r.jti sid

-- revoked_at IS NULL.
abbrev pub is_open : SessionRow → Bool
is_open r = not (is_revoked r.session)

abbrev pub to_session : Option SessionRow → Option Session
to_session none = none
to_session (some r) = some r.session

-- A SELECT with a WHERE clause, its first row read.
unfoldable pub find_session : (SessionRow → Bool) → Outcome → Db → Option Session
find_session p o db = if committed o then to_session (find_first p db.sessions) else none

unfoldable pub find_session_by_id : Outcome → Db → String → Option Session
unfolding find_session
find_session_by_id o db sid = find_session (names_session sid) o db

unfoldable pub find_session_by_jti : Outcome → Db → String → Option Session
unfolding find_session
find_session_by_jti o db jti = find_session (λ r. str_eq r.jti jti) o db

-- A session found by its previous hash is returned as if it were revoked.
abbrev pub as_reused : ℕ → Session → Session
as_reused now s = record s {
  revoked_at = some now;
  revocation_reason = some "TOKEN_REUSE_DETECTED";
}

abbrev pub find_reused : ℕ → List SessionRow → String → Option Session
find_reused now rows hash =
    elim (find_first (λ r. sql_eq r.previous_refresh_token_hash hash) rows) [
      | none ↦ none
      | some r ↦ some (as_reused now r.session)
    ]

unfoldable pub find_session_by_refresh_hash : Outcome → ℕ → Db → String → Option Session
find_session_by_refresh_hash o now db hash =
    if committed o
    then elim (find_first (λ r. str_eq r.refresh_token_hash hash) db.sessions) [
      | some r ↦ some r.session
      | none ↦ find_reused now db.sessions hash
    ]
    else none

-- The UNIQUE constraint on jti.
abbrev pub unique_jti : List SessionRow → Bool
unique_jti [] = true
unique_jti (r ∷ rows) = not (any (λ q. str_eq q.jti r.jti) rows) && unique_jti rows

abbrev pub inserted_session : String → ℕ → Session → SessionRow
inserted_session id now s = record {
  session = record s {
    id = id;
    created_at = now;
    last_seen_at = now;
    revoked_at = none;
    revocation_reason = none;
  };
  previous_refresh_token_hash = none;
}

-- `id` is the uuid that the database draws. The entity takes it before the commit.
unfoldable pub create_session : Outcome → String → ℕ → Db → Session → Session × Db
create_session o id now db s =
    if any (λ r. str_eq r.jti s.jti) db.sessions then (s, db) else elim o [
      | commits ↦ (
        record s { id = id },
        record db { sessions = db.sessions ++ inserted_session id now s ∷ [] },
      )
      | refused ↦ (s, db)
      | rolled_back ↦ (record s { id = id }, db)
    ]

abbrev pub rotated : String → String → ℕ → ℕ → SessionRow → SessionRow
rotated hash jti expires now r = record {
  session = record r.session {
    refresh_token_hash = hash;
    jti = jti;
    expires_at = expires;
    last_seen_at = now;
  };
  previous_refresh_token_hash = some r.refresh_token_hash;
}

-- The UPDATE fails as a whole where it would break the UNIQUE constraint on jti.
unfoldable pub update_refresh_token : Outcome → ℕ → Db → String → String → String → ℕ → Bool × Db
update_refresh_token o now db sid hash jti expires =
    let p : SessionRow → Bool = λ r. names_session sid r && is_open r in
    let rows = update_where p (rotated hash jti expires now) db.sessions in
    if committed o && unique_jti rows
    then (any p db.sessions, record db { sessions = rows })
    else (false, db)

abbrev pub revoked_row : String → ℕ → SessionRow → SessionRow
revoked_row reason now r = record r {
  session = record r.session { revoked_at = some now; revocation_reason = some reason };
}

-- INSERT INTO token_revocations … ON CONFLICT (jti) DO NOTHING.
unfoldable pub insert_revocation : ℕ → String → String → ℕ → List Revocation → List Revocation
insert_revocation now jti sid expires rows =
    if any (λ r. str_eq r.jti jti) rows
    then rows
    else rows ++ record { jti = jti; session_id = sid; expires_at = expires; revoked_at = now } ∷ []

-- The insert and the notification for one row that an UPDATE returned.
unfoldable pub announce : ℕ → SessionRow → Db → Db
unfolding insert_revocation
announce now r db = record db {
  revocations = insert_revocation now r.jti r.id r.expires_at db.revocations;
  notified = db.notified ++ r.id ∷ [];
}

-- Only the first returned row is announced.
unfoldable pub revoke_session : Outcome → ℕ → Db → String → String → Bool × Db
unfolding announce
revoke_session o now db sid reason =
    let p : SessionRow → Bool = λ r. names_session sid r && is_open r in
    if committed o
    then elim (find_first p db.sessions) [
      | none ↦ (false, db)
      | some r ↦ (
        true,
        announce now r
            (record db { sessions = update_where p (revoked_row reason now) db.sessions }),
      )
    ]
    else (false, db)

unfoldable pub announce_all : ℕ → List SessionRow → Db → Db
unfolding announce
announce_all now [] db = db
announce_all now (r ∷ rows) db = announce_all now rows (announce now r db)

abbrev pub of_user : String → SessionRow → Bool
of_user uid r = str_eq r.user_id uid && is_open r

-- `count` is assigned from the UPDATE's rows, also where the transaction is undone afterwards.
unfoldable pub revoke_all_user_sessions : Outcome → ℕ → Db → String → String → ℕ × Db
unfolding announce_all
revoke_all_user_sessions o now db uid reason = elim o [
  | commits ↦ (
    length (select (of_user uid) db.sessions),
    announce_all now (select (of_user uid) db.sessions)
        (record db { sessions = update_where (of_user uid) (revoked_row reason now) db.sessions }),
  )
  | refused ↦ (0, db)
  | rolled_back ↦ (length (select (of_user uid) db.sessions), db)
]

unfoldable pub is_token_revoked : Outcome → Db → String → Bool
is_token_revoked o db jti =
    if committed o
    then any (λ r. str_eq r.jti jti) db.revocations
      || any (λ r. str_eq r.jti jti && is_revoked r.session) db.sessions
    else false

unfoldable pub record_token_revocation : Outcome → ℕ → Db → String → String → ℕ → Db
unfolding insert_revocation
record_token_revocation o now db jti sid expires =
    if committed o
    then record db { revocations = insert_revocation now jti sid expires db.revocations }
    else db

unfoldable pub cleanup_expired_revocations : Outcome → ℕ → Db → ℕ × Db
cleanup_expired_revocations o now db =
    if committed o
    then (
      length (select (λ r. leb r.expires_at now) db.revocations),
      record db { revocations = select (λ r. not (leb r.expires_at now)) db.revocations },
    )
    else (0, db)

-- ORDER BY created_at DESC. The order of rows of one instant is the database's: `ties r q` says that
-- `r` comes before `q`.
abbrev pub Ties : Type 0
Ties = SessionRow → SessionRow → Bool

abbrev pub comes_first : Ties → SessionRow → SessionRow → Bool
comes_first ties r q = ltb q.created_at r.created_at || (q.created_at == r.created_at && ties r q)

abbrev pub insert_newest : Ties → SessionRow → List SessionRow → List SessionRow
insert_newest ties r [] = r ∷ []
insert_newest ties r (q ∷ rows) =
    if comes_first ties r q then r ∷ q ∷ rows else q ∷ insert_newest ties r rows

abbrev pub newest_first : Ties → List SessionRow → List SessionRow
newest_first ties [] = []
newest_first ties (r ∷ rows) = insert_newest ties r (newest_first ties rows)

abbrev pub still_valid : ℕ → SessionRow → Bool
still_valid now r = is_open r && ltb now r.expires_at

-- The rows stay read where the commit throws.
unfoldable pub find_user_sessions : Ties → Outcome → ℕ → Db → String → Bool → List Session
find_user_sessions ties o now db uid include_revoked = elim o [
  | refused ↦ []
  | _ ↦
      map (λ r. r.session)
        (newest_first ties (
          select (λ r. str_eq r.user_id uid && (include_revoked || still_valid now r)) db.sessions))
]
