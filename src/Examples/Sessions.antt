-- ===== src/Examples/Sessions.antt =====
-- Revocations on the example tables.
use mathlib.Core.List.{Perm}
use cppbackend_api.Base.{
  ℕ, String, ◌∷◌, map, ◌≡◌, ◌≢◌, ◌↔◌, ◌⊎◌, refl, true, not, ◌&&◌, none, some, [], str_eq, ◌==◌,
  if◌then◌else◌, find_first, select, length, All, pos, negsuc, ◌≤◌, leb→le, first_pages,
}
use cppbackend_api.Domain.Result.{ok, err, ApiResponse, respond_void}
use cppbackend_api.Domain.Entities.{Session, is_revoked}
use cppbackend_api.Domain.Permissions.{
  session_revoke_all, session_read_all, has_permission, can_access_session, can_revoke_session,
}
use cppbackend_api.Domain.Permissions.Roles.{session_rights_iff}
use cppbackend_api.Db.{Db, SessionRow, commits, refused}
use cppbackend_api.Db.Sessions.{
  Ties, names_session, is_open, of_user, revoke_session, revoke_all_user_sessions,
  find_session_by_id,
}
use cppbackend_api.Db.Sessions.Revoking.{revoke_all_user_sessions_lem, is_listed}
use cppbackend_api.Auth.{Call}
use cppbackend_api.SessionUseCases.{
  locate_session, revoke_user_session, revoke_admin_session, revoke_all_user_sessions_admin,
  forbidden, get_admin_sessions,
}
use cppbackend_api.SessionUseCases.Guards.{admin_operations_forbidden, revoke_user_session_sound}
use cppbackend_api.SessionUseCases.Filters.{is_asked_for}
use cppbackend_api.SessionUseCases.Listing.{
  rows_let_through, shown_row, latest_first, entries, get_admin_sessions_sound, pages_complete,
}
use cppbackend_api.Examples.{row_of, session_of, program, c, alice, root, db, s1}

abbrev db' : Db
db' = (revoke_session commits 1000 db "j-s1" "User logout").1

revoked : revoke_session commits 1000 db "j-s1" "User logout" ≡ (true, db')
unfolding program
revoked = refl

abbrev closed : Session
closed = record s1 { revoked_at = some 1000; revocation_reason = some "User logout" }

found_closed : find_session_by_id commits db' "j-s1" ≡ some closed
unfolding program
found_closed = refl

revoke_all_user_sessions_lem_example :
    let after = revoke_all_user_sessions commits 1000 db "u1" "logout-all" in
    (after.0 ≡ length (select (of_user "u1") db.sessions))
    × (select (of_user "u1") after.1.sessions ≡ [])
    × (select (λ r. not (str_eq r.user_id "u1")) after.1.sessions
        ≡ select (λ r. not (str_eq r.user_id "u1")) db.sessions)
    × All (λ r. is_listed r.jti after.1.revocations ≡ true) (select (of_user "u1") db.sessions)
revoke_all_user_sessions_lem_example = revoke_all_user_sessions_lem 1000 db "u1" "logout-all"

session_rights_iff_example :
    ((can_access_session alice s1 ≡ true) ↔ ((alice.role ≡ "admin") ⊎ (alice.id ≡ s1.user_id)))
    × ((can_revoke_session alice s1 ≡ true) ↔ ((alice.role ≡ "admin") ⊎ (alice.id ≡ s1.user_id)))
session_rights_iff_example = session_rights_iff alice s1

user-ne-admin : alice.role ≢ "admin"
user-ne-admin h = cc

admin_operations_forbidden_example :
    (revoke_admin_session c db alice "s0" "mine" ≡ (err forbidden, db))
    × (revoke_all_user_sessions_admin c db alice "s0" "mine" ≡ (err forbidden, db))
    × (get_admin_sessions c db alice (pos 10) (pos 0) none none none ≡ err forbidden)
admin_operations_forbidden_example =
    admin_operations_forbidden c db alice "s0" "mine" (pos 10) (pos 0) none none none user-ne-admin

abbrev after_own : Db
after_own = (revoke_user_session c db "u1" "s1").1

abbrev answered : ApiResponse (Unit {0})
answered = respond_void "Session revoked successfully" 200 1000

own_revoked : revoke_user_session c db "u1" "s1" ≡ (ok answered, after_own)
unfolding program
own_revoked = refl

revoke_user_session_sound_example :
    (s : Session) × (locate_session c db "s1" ≡ some s)
    × (s.user_id ≡ "u1")
    × (((is_revoked s ≡ true) × (after_own ≡ db))
        ⊎ (find_first (λ r. names_session s.id r && is_open r) after_own.sessions ≡ none))
revoke_user_session_sound_example =
    revoke_user_session_sound c db after_own "u1" "s1" answered refl own_revoked

located : locate_session c db "s1" ≡ some s1
unfolding program
located = refl

-- The third call is refused.
abbrev refusing : Call
refusing = record c { outcome = λ n. if n == 2 then refused else commits }

located_refusing : locate_session refusing db "s1" ≡ some s1
unfolding program
located_refusing = refl

root_allowed : has_permission root session_revoke_all ≡ true
unfolding program
root_allowed = refl

get_admin_sessions_sound_example :
    (length (
        entries
          (get_admin_sessions c db root (pos 1000) (negsuc 3) (some "u1") (some "active") none))
      ≤ 200)
    × All
        (λ e. is_asked_for (some "u1") (some "active") none e ≡ true)
        (entries
          (get_admin_sessions c db root (pos 1000) (negsuc 3) (some "u1") (some "active") none))
get_admin_sessions_sound_example =
    get_admin_sessions_sound c db (some "u1") (some "active") none root (pos 1000) (negsuc 3)

root_reads : has_permission root session_read_all ≡ true
unfolding program
root_reads = refl

-- Three sessions of different instants.
abbrev at_instant : String → String → ℕ → SessionRow
at_instant id token instant = row_of (record (session_of id "u1" token) { created_at = instant })

abbrev spread : Db
spread = record db {
  sessions = at_instant "s0" "t0" 300 ∷ at_instant "s1" "t1" 500 ∷ at_instant "s2" "t2" 400 ∷ [];
}

abbrev no_ties : ℕ → Ties
no_ties at r q = true

pages_complete_example :
    let joined =
      first_pages
        (λ at. entries (
          get_admin_sessions
            (record c { ties = no_ties at })
            spread
            root
            (pos 2)
            (pos at)
            none
            none
            none))
        2
        2 in
    Perm joined (map (shown_row c.now) (rows_let_through c spread none none none))
    × (latest_first joined ≡ true)
pages_complete_example =
    pages_complete c spread none none none root 2 2 no_ties root_reads refl (leb→le 1 2 refl)
      (leb→le 2 200 refl) (leb→le 3 4 refl) refl
