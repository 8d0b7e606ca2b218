-- ===== src/Auth/Refresh/Reuse.antt =====
-- A refresh token that is presented again after its rotation.
use cppbackend_api.Base.{
  ℕ, ◌+◌, ◌≡◌, refl, sym, ap, ◌∙◌, Bool, true, false, not, ◌&&◌, ◌||◌, inl, inr, Option, none, some,
  List, [], ◌∷◌, String, str_eq, if◌then◌else◌, arith, find_first, update_where, any, select,
  Bool-cases,
}
use mathlib.Core.Option.{some-injective}
use cppbackend_api.Domain.Result.{ok, err, ApiResponse}
use cppbackend_api.Domain.Entities.{Session, is_revoked}
use cppbackend_api.Validation.Credentials.{RefreshTokenRequest, validate_refresh_token}
use cppbackend_api.Db.{Db, SessionRow, Outcome, commits, sql_eq}
use cppbackend_api.Db.Sessions.{
  find_session_by_refresh_hash, find_reused, as_reused, rotated, names_session, is_open, of_user,
}
use cppbackend_api.Db.Sessions.Revoking.{revoke_all_user_sessions_lem}
use cppbackend_api.Auth.{Services, Call, TokenResponse, seconds_of_days}
use cppbackend_api.Auth.Login.Soundness.{record_audit-sessions}
use cppbackend_api.Auth.Refresh.{refresh, refresh_found, reuse_detected, invalid_token}
use cppbackend_api.Auth.Expected.{rotated_sessions}
use cppbackend_api.Auth.Refresh.Rotation.{refresh_sound}

reuse_detected-closes :
    (c : Call) (db : Db) (s : Session)
    → c.outcome 1 ≡ commits
    → select (of_user s.user_id) (reuse_detected c db s).sessions ≡ []
unfolding reuse_detected
reuse_detected-closes c db s commit =
    rw (record_audit-sessions, commit)
      (revoke_all_user_sessions_lem c.now db s.user_id "Security: Refresh token reuse detected").1

-- A valid request whose token's hash belongs to a revoked session, or was the hash of a session
-- before its last rotation: the answer is that the token is invalid, and no session of the
-- session's user is open afterwards.
refresh-reuse :
    (svc : Services) (c : Call) (db : Db) (req : RefreshTokenRequest) (s : Session)
    → validate_refresh_token req ≡ ok tt
    → find_session_by_refresh_hash (c.outcome 0) c.now db (svc.sha256_hex req.refresh_token)
      ≡ some s
    → is_revoked s ≡ true
    → c.outcome 1 ≡ commits
    → ((refresh svc c db req).0 ≡ err invalid_token)
      × (select (of_user s.user_id) (refresh svc c db req).1.sessions ≡ [])
unfolding refresh refresh_found
refresh-reuse svc c db req s valid found revoked commit =
    let e : refresh svc c db req ≡ (err invalid_token, reuse_detected c db s) = ground arith in
    rw e (refl, reuse_detected-closes c db s commit)

or-eq-false : (a b : Bool) → (a || b) ≡ false → (a ≡ false) × (b ≡ false)
or-eq-false a b h = ground arith

and_not-eq-false : (a b : Bool) → a ≡ true → (a && not b) ≡ false → b ≡ true
and_not-eq-false a b e h = ground arith

module _ (sid old new jti : String) (expires now : ℕ) (differ : str_eq new old ≡ false) where
  abbrev here : SessionRow → Bool
  here r = names_session sid r && is_open r

  -- Where only the session itself has the old hash, no row has it after the rotation.
  old_hash_gone :
      (rows : List SessionRow)
      → any (λ q. str_eq q.refresh_token_hash old && not (here q)) rows ≡ false
      → find_first
          (λ q. str_eq q.refresh_token_hash old)
          (update_where here (rotated new jti expires now) rows)
        ≡ none
  old_hash_gone [] h = refl
  old_hash_gone (r ∷ rows) h = ground (arith, old_hash_gone rows)

  abbrev moved : SessionRow → SessionRow
  moved r = if here r then rotated new jti expires now r else r

  moved_other :
      (q : SessionRow)
      → str_eq q.refresh_token_hash old ≡ false
      → sql_eq q.previous_refresh_token_hash old ≡ false
      → sql_eq (moved q).previous_refresh_token_hash old ≡ false
  moved_other q h k = elim (Bool-cases (here q)) [ inl e ↦ rw e h | inr e ↦ rw e k ]

  abbrev rotated? : Option SessionRow → Option SessionRow
  rotated? none = none
  rotated? (some r) = some (rotated new jti expires now r)

  -- And the row that had it holds it as its previous hash.
  old_hash_kept :
      (rows : List SessionRow)
      → any (λ q. str_eq q.refresh_token_hash old && not (here q)) rows ≡ false
      → any (λ q. sql_eq q.previous_refresh_token_hash old) rows ≡ false
      → find_first
          (λ q. sql_eq q.previous_refresh_token_hash old)
          (update_where here (rotated new jti expires now) rows)
        ≡ rotated? (find_first (λ q. str_eq q.refresh_token_hash old) rows)
  old_hash_kept [] h k = refl
  old_hash_kept (q ∷ rows) h k =
      let (h_head, h_tail) = or-eq-false (str_eq q.refresh_token_hash old && not (here q)) _ h in
      let (k_head, k_tail) = or-eq-false (sql_eq q.previous_refresh_token_hash old) _ k in
      elim (Bool-cases (str_eq q.refresh_token_hash old)) [
        | inl e ↦ let e' : here q ≡ true = and_not-eq-false _ _ e h_head in rw (e', e)
        | inr e ↦ rw (moved_other q e k_head, e) (old_hash_kept rows h_tail k_tail)
      ]

find_session_by_refresh_hash-reused :
    (o : Outcome) (now : ℕ) (db : Db) (hash : String) (r : SessionRow)
    → o ≡ commits
    → find_first (λ q. str_eq q.refresh_token_hash hash) db.sessions ≡ none
    → find_first (λ q. sql_eq q.previous_refresh_token_hash hash) db.sessions ≡ some r
    → find_session_by_refresh_hash o now db hash ≡ some (as_reused now r.session)
unfolding find_session_by_refresh_hash
find_session_by_refresh_hash-reused o now db hash r commit gone kept =
    rw (commit, gone, kept, find_reused)

-- The row that a look-up by the old hash finds after the rotation, given the one before it.
replayed-found :
    (svc : Services) (c c2 : Call) (db db' : Db) (old : String) (r : SessionRow)
    → str_eq (svc.sha256_hex c.drawn_token) old ≡ false
    → any
        (λ q. str_eq q.refresh_token_hash old && not (names_session r.id q && is_open q))
        db.sessions
      ≡ false
    → any (λ q. sql_eq q.previous_refresh_token_hash old) db.sessions ≡ false
    → find_first (λ q. str_eq q.refresh_token_hash old) db.sessions ≡ some r
    → db'.sessions ≡ rotated_sessions svc c db r.id
    → c2.outcome 0 ≡ commits
    → find_session_by_refresh_hash (c2.outcome 0) c2.now db' old
      ≡ some (
          as_reused c2.now
            (rotated
              (svc.sha256_hex c.drawn_token)
              c.drawn_jti
              (c.now + seconds_of_days 7)
              c.now
              r).session)
replayed-found svc c c2 db db' old r differ only_one never_before found stored commit =
    let new : String = svc.sha256_hex c.drawn_token in
    let expires : ℕ = c.now + seconds_of_days 7 in
    find_session_by_refresh_hash-reused (c2.outcome 0) c2.now db' old
      (rotated new c.drawn_jti expires c.now r) commit
      (rw stored (old_hash_gone r.id old new c.drawn_jti expires c.now differ db.sessions only_one))
      (rw stored (
        old_hash_kept r.id old new c.drawn_jti expires c.now differ db.sessions only_one
          never_before
        ∙ ap (rotated? r.id old new c.drawn_jti expires c.now differ) found))

refresh-valid :
    (svc : Services) (c : Call) (db db' : Db) (req : RefreshTokenRequest)
    (resp : ApiResponse TokenResponse)
    → refresh svc c db req ≡ (ok resp, db')
    → validate_refresh_token req ≡ ok tt
unfolding refresh
refresh-valid svc c db db' req resp h = ground arith

-- A refresh token that was exchanged once is worthless and dangerous afterwards: presented a second
-- time it is refused as invalid, and every session of its user is closed. The hash of the new token
-- differs from the old one's, the old hash belonged to that one session and to no earlier rotation,
-- and the look-up and the revocation of the second request commit.
pub refresh_replay :
    (svc : Services) (c c2 : Call) (db db' : Db) (req : RefreshTokenRequest)
    (resp : ApiResponse TokenResponse) (r : SessionRow)
    → refresh svc c db req ≡ (ok resp, db')
    → find_first (λ q. str_eq q.refresh_token_hash (svc.sha256_hex req.refresh_token)) db.sessions
      ≡ some r
    → str_eq (svc.sha256_hex c.drawn_token) (svc.sha256_hex req.refresh_token) ≡ false
    → any
        (λ q.
          str_eq q.refresh_token_hash (svc.sha256_hex req.refresh_token)
          && not (names_session r.id q && is_open q))
        db.sessions
      ≡ false
    → any (λ q. sql_eq q.previous_refresh_token_hash (svc.sha256_hex req.refresh_token)) db.sessions
      ≡ false
    → c2.outcome 0 ≡ commits
    → c2.outcome 1 ≡ commits
    → ((refresh svc c2 db' req).0 ≡ err invalid_token)
      × (select (of_user r.user_id) (refresh svc c2 db' req).1.sessions ≡ [])
refresh_replay svc c c2 db db' req resp r h found differ only_one never_before look revoke =
    let old : String = svc.sha256_hex req.refresh_token in
    let (q, u, found_q, open_q, fresh, known, active, answer, stored) =
      refresh_sound svc c db db' req resp h in
    let same : q ≡ r = some-injective _ _ (sym found_q ∙ found) in
    let stored' : db'.sessions ≡ rotated_sessions svc c db r.id =
      stored ∙ ap (λ (x : SessionRow). rotated_sessions svc c db x.id) same in
    refresh-reuse svc c2 db' req
      (as_reused c2.now
        (rotated (svc.sha256_hex c.drawn_token) c.drawn_jti (c.now + seconds_of_days 7) c.now
          r).session)
      (refresh-valid svc c db db' req resp h)
      (replayed-found svc c c2 db db' old r differ only_one never_before found stored' look) refl
      revoke
