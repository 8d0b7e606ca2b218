-- ===== src/Db/Sessions/Revoking.antt =====
-- What revoking one session, or all sessions of a user, does to the tables.
use cppbackend_api.Base.{
  ℕ, ◌≡◌, refl, Bool, true, not, ◌&&◌, inl, inr, none, some, List, [], ◌∷◌, ◌++◌, String, str_eq,
  eq_refl, arith, find_first, update_where, any, select, length, Option-cases, All,
}
use cppbackend_api.Domain.Entities.{Session, is_revoked}
use cppbackend_api.Db.{Db, SessionRow, Revocation, Outcome, commits, refused, rolled_back}
use cppbackend_api.Db.Sessions.{
  names_session, is_open, to_session, find_session, find_session_by_id, revoked_row,
  insert_revocation, announce, announce_all, revoke_session, of_user, revoke_all_user_sessions,
}

-- A row that was updated to be revoked is open no more, and keeps its names.
module _ (sid reason : String) (now : ℕ) where
  abbrev hit : SessionRow → Bool
  hit r = names_session sid r && is_open r

  pub find_first-update_where-hit :
      (rows : List SessionRow)
      → find_first hit (update_where hit (revoked_row reason now) rows) ≡ none
  find_first-update_where-hit [] = refl
  find_first-update_where-hit (r ∷ rows) = ground (arith, find_first-update_where-hit rows)

  -- The first row of that name, open or not, is revoked after the update.
  pub named-update_where-hit :
      (rows : List SessionRow) (s : Session)
      → to_session (find_first (names_session sid) (update_where hit (revoked_row reason now) rows))
        ≡ some s
      → is_revoked s ≡ true
  named-update_where-hit [] s h = cc
  named-update_where-hit (r ∷ rows) s h = ground (arith, named-update_where-hit rows s)

-- After a revocation that commits, no session is open under that name, whether or not one was.
pub revoke_session-leaves_none_open :
    (now : ℕ) (db : Db) (sid reason : String)
    → find_first
        (λ r. names_session sid r && is_open r)
        (revoke_session commits now db sid reason).1.sessions
      ≡ none
unfolding revoke_session announce
revoke_session-leaves_none_open now db sid reason =
    ground (arith, find_first-update_where-hit sid reason now db.sessions)

-- `revokeSession` reports whether an open session had that name, and one that returns true has
-- committed.
pub revoke_session-true :
    (o : Outcome) (now : ℕ) (db db' : Db) (sid reason : String)
    → revoke_session o now db sid reason ≡ (true, db')
    → (r : SessionRow) × (find_first (λ r. names_session sid r && is_open r) db.sessions ≡ some r)
      × (o ≡ commits)
      × (db'
          ≡ announce now r (record db {
            sessions =
                update_where
                  (λ r. names_session sid r && is_open r)
                  (revoked_row reason now)
                  db.sessions;
          }))
unfolding revoke_session
revoke_session-true commits now db db' sid reason h =
    elim (Option-cases (find_first (λ r. names_session sid r && is_open r) db.sessions)) [
      | inl e ↦ absurd (ground arith)
      | inr (r, e) ↦ (r, e, refl, ground arith)
    ]
revoke_session-true refused now db db' sid reason h = absurd (ground arith)
revoke_session-true rolled_back now db db' sid reason h = absurd (ground arith)

-- Once a session was revoked under a name, whoever reads by that name finds nothing or a revoked
-- session.
pub revoke_session-found_revoked :
    (o o' : Outcome) (now : ℕ) (db db' : Db) (sid reason : String) (s : Session)
    → revoke_session o now db sid reason ≡ (true, db')
    → find_session_by_id o' db' sid ≡ some s
    → is_revoked s ≡ true
unfolding find_session_by_id find_session announce
revoke_session-found_revoked o o' now db db' sid reason s h found =
    let (r, e, o-commits, same) = revoke_session-true o now db db' sid reason h in
    ground (arith, named-update_where-hit sid reason now db.sessions s)

pub any-append_right :
    (p : Revocation → Bool) (xs : List Revocation) (x : Revocation)
    → p x ≡ true
    → any p (xs ++ x ∷ []) ≡ true
any-append_right p [] x h = ground arith
any-append_right p (y ∷ xs) x h = ground (arith, any-append_right p xs x)

any-append_left :
    (p : Revocation → Bool) (xs ys : List Revocation) → any p xs ≡ true → any p (xs ++ ys) ≡ true
any-append_left p [] ys h = cc
any-append_left p (x ∷ xs) ys h = ground (arith, any-append_left p xs ys)

abbrev pub is_listed : String → List Revocation → Bool
is_listed jti rows = any (λ r. str_eq r.jti jti) rows

insert_revocation-is_listed :
    (now : ℕ) (jti sid : String) (expires : ℕ) (rows : List Revocation)
    → is_listed jti (insert_revocation now jti sid expires rows) ≡ true
unfolding insert_revocation
insert_revocation-is_listed now jti sid expires rows = ground (
  arith,
  eq_refl jti,
  any-append_right (λ r. str_eq r.jti jti) rows
      (record { jti = jti; session_id = sid; expires_at = expires; revoked_at = now }),
)

insert_revocation-keeps :
    (now : ℕ) (jti sid other : String) (expires : ℕ) (rows : List Revocation)
    → is_listed other rows ≡ true
    → is_listed other (insert_revocation now jti sid expires rows) ≡ true
unfolding insert_revocation
insert_revocation-keeps now jti sid other expires rows h = ground (
  arith,
  any-append_left (λ r. str_eq r.jti other) rows
      (record { jti = jti; session_id = sid; expires_at = expires; revoked_at = now } ∷ []),
)

announce_all-keeps :
    (now : ℕ) (rows : List SessionRow) (db : Db) (jti : String)
    → is_listed jti db.revocations ≡ true
    → is_listed jti (announce_all now rows db).revocations ≡ true
unfolding announce_all announce
announce_all-keeps now [] db jti h = h
announce_all-keeps now (r ∷ rows) db jti h =
    announce_all-keeps now rows (announce now r db) jti
      (insert_revocation-keeps now r.jti r.id jti r.expires_at db.revocations h)

announce_all-lists :
    (now : ℕ) (rows : List SessionRow) (db : Db)
    → All (λ r. is_listed r.jti (announce_all now rows db).revocations ≡ true) rows
unfolding announce_all announce
announce_all-lists now [] db = tt
announce_all-lists now (r ∷ rows) db = (
  announce_all-keeps now rows (announce now r db) r.jti
      (insert_revocation-is_listed now r.jti r.id r.expires_at db.revocations),
  announce_all-lists now rows (announce now r db),
)

pub announce_all-sessions :
    (now : ℕ) (rows : List SessionRow) (db : Db) → (announce_all now rows db).sessions ≡ db.sessions
unfolding announce_all announce
announce_all-sessions now [] db = refl
announce_all-sessions now (r ∷ rows) db = announce_all-sessions now rows (announce now r db)

module _ (uid reason : String) (now : ℕ) where
  select-of_user_after :
      (rows : List SessionRow)
      → select (of_user uid) (update_where (of_user uid) (revoked_row reason now) rows) ≡ []
  select-of_user_after [] = refl
  select-of_user_after (r ∷ rows) = ground (arith, select-of_user_after rows)

  select-others_after :
      (rows : List SessionRow)
      → select
          (λ r. not (str_eq r.user_id uid))
          (update_where (of_user uid) (revoked_row reason now) rows)
        ≡ select (λ r. not (str_eq r.user_id uid)) rows
  select-others_after [] = refl
  select-others_after (r ∷ rows) = ground (arith, select-others_after rows)

-- Revoking all sessions of a user, where it commits: the count is the number of his sessions that
-- were open, none is open afterwards, the rows of other users stay as they were, and the jti of
-- every session that was open is listed in `token_revocations`.
pub revoke_all_user_sessions_lem :
    (now : ℕ) (db : Db) (uid reason : String)
    → let after = revoke_all_user_sessions commits now db uid reason in
      (after.0 ≡ length (select (of_user uid) db.sessions))
      × (select (of_user uid) after.1.sessions ≡ [])
      × (select (λ r. not (str_eq r.user_id uid)) after.1.sessions
          ≡ select (λ r. not (str_eq r.user_id uid)) db.sessions)
      × All (λ r. is_listed r.jti after.1.revocations ≡ true) (select (of_user uid) db.sessions)
unfolding revoke_all_user_sessions
revoke_all_user_sessions_lem now db uid reason =
    let updated : Db = record db {
      sessions = update_where (of_user uid) (revoked_row reason now) db.sessions;
    } in
    let hits : List SessionRow = select (of_user uid) db.sessions in
    (
      refl,
      rw (announce_all-sessions now hits updated) (select-of_user_after uid reason now db.sessions),
      rw (announce_all-sessions now hits updated) (select-others_after uid reason now db.sessions),
      announce_all-lists now hits updated,
    )

-- A session found by id is the row that `find_first` finds.
pub find_session_by_id-row :
    (o : Outcome) (db : Db) (sid : String) (s : Session)
    → find_session_by_id o db sid ≡ some s
    → (r : SessionRow) × (o ≡ commits)
      × (find_first (names_session sid) db.sessions ≡ some r)
      × (s ≡ r.session)
unfolding find_session_by_id find_session
find_session_by_id-row o db sid s h =
    elim (Option-cases (find_first (names_session sid) db.sessions)) [
      | inl e ↦ absurd (ground arith)
      | inr (r, e) ↦ (r, ground arith, e, ground arith)
    ]
