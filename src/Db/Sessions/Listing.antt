-- ===== src/Db/Sessions/Listing.antt =====
-- PostgresSessionRepository::findAllSessions: filters, the newest first, in pages.
use cppbackend_api.Base.{
  ℕ, Bool, true, ◌&&◌, Option, none, some, List, [], String, str_eq, if◌then◌else◌, leb, is_empty,
  select, map, drop, take, ℤ, pos, negsuc,
}
use cppbackend_api.Domain.Entities.{Session, is_revoked}
use cppbackend_api.Db.{Db, SessionRow, Outcome, refused}
use cppbackend_api.Db.Sessions.{Ties, still_valid, newest_first}

-- `AND column = $n`, left out where there is no value or an empty one.
abbrev pub equals_given : Option String → String → Bool
equals_given none column = true
equals_given (some value) column = if is_empty value then true else str_eq column value

abbrev pub status_clause : ℕ → String → SessionRow → Bool
status_clause now status r =
    if str_eq status "active"
    then still_valid now r
    else if str_eq status "revoked"
    then is_revoked r.session
    else if str_eq status "expired"
    then leb r.expires_at now
    else true

abbrev pub has_status : ℕ → Option String → SessionRow → Bool
has_status now none r = true
has_status now (some status) r = status_clause now status r

abbrev pub listed : ℕ → Option String → Option String → Option String → SessionRow → Bool
listed now user_id status ip r =
    equals_given user_id r.user_id && has_status now status r && equals_given ip r.ip_address

-- LIMIT and OFFSET, neither of which may be negative.
abbrev pub page {ℓ} : {A : Type ℓ} → ℤ → ℤ → List A → List A
page (pos limit) (pos offset) rows = take limit (drop offset rows)
page (pos limit) (negsuc offset) rows = []
page (negsuc limit) offset rows = []

unfoldable pub find_all_sessions :
    Ties → Outcome → ℕ → Db → ℤ → ℤ → Option String → Option String → Option String → List Session
find_all_sessions ties o now db limit offset user_id status ip = elim o [
  | refused ↦ []
  | _ ↦
      map (λ r. r.session)
        (page limit offset (newest_first ties (select (listed now user_id status ip) db.sessions)))
]
