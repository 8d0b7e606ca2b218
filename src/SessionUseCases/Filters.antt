-- ===== src/SessionUseCases/Filters.antt =====
-- What the filters of the administrator's listing let through, and the bounds of its pages.
use cppbackend_api.Base.{
  ℕ, ◌≤◌, ◌≡◌, refl, Bool, true, false, ◌&&◌, ◌||◌, Option, none, some, String, str_eq,
  if◌then◌else◌, arith, ℤ, pos, negsuc,
}
use cppbackend_api.Domain.Entities.{is_revoked, is_expired}
use cppbackend_api.Db.{SessionRow}
use cppbackend_api.Db.Sessions.Listing.{has_status, status_clause, equals_given}
use cppbackend_api.SessionUseCases.{SessionResponse, status_of, page_limit}

-- What a status filter lets through, by the status that the answer shows.
abbrev pub status_shown : Option String → String → Bool
status_shown none shown = true
status_shown (some status) shown =
    if str_eq status "active"
    then str_eq shown "active"
    else if str_eq status "revoked"
    then str_eq shown "revoked"
    else if str_eq status "expired"
    then str_eq shown "expired" || str_eq shown "revoked"
    else true

-- The three tests that decide the status, and those of the filter.
shown_as :
    (now : ℕ) (status : String) (r : SessionRow) (revoked expired : Bool)
    → is_revoked r.session ≡ revoked
    → is_expired r.session now ≡ expired
    → status_clause now status r ≡ true
    → status_shown
        (some status)
        (if revoked then "revoked" else if expired then "expired" else "active")
      ≡ true
shown_as now status r true expired hr he h = ground (arith, hr, he)
shown_as now status r false true hr he h = ground (arith, hr, he)
shown_as now status r false false hr he h = ground (arith, hr, he)

pub status_of-shown :
    (now : ℕ) (status : Option String) (r : SessionRow)
    → has_status now status r ≡ true
    → status_shown status (status_of r.session now) ≡ true
unfolding status_of
status_of-shown now none r h = refl
status_of-shown now (some status) r h =
    shown_as now status r (is_revoked r.session) (is_expired r.session now) refl refl h

pub page_limit-small : (n : ℕ) → 1 ≤ n → n ≤ 200 → page_limit (pos n) ≡ n
unfolding page_limit
page_limit-small n low high = ground arith

pub page_limit-bound : (z : ℤ) → (1 ≤ page_limit z) × (page_limit z ≤ 200)
unfolding page_limit
page_limit-bound (negsuc n) = (omega arith, omega arith)
page_limit-bound (pos n) = ground arith

-- What a listing with filters promises of each entry.
abbrev pub is_asked_for : Option String → Option String → Option String → SessionResponse → Bool
is_asked_for user_id status ip e =
    equals_given user_id e.user_id && status_shown status e.status && equals_given ip e.ip_address
