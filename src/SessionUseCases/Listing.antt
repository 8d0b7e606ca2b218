-- ===== src/SessionUseCases/Listing.antt =====
-- The administrator's listing: its pages, its bound and its filters.
use mathlib.Core.List.{Perm}
use mathlib.Core.List.Perm
use cppbackend_api.Base.{
  ℕ, zero, suc, ◌*◌, ◌≤◌, ◌≡◌, refl, ap, ◌∙◌, Bool, true, ◌&&◌, ◌⊎◌, inl, inr, Option, none, some,
  List, [], ◌∷◌, String, arith, ltb, all, length, map, select, take, drop, All, All-take, All-drop,
  All-select, All-map, take-enough, length-take, length-map, first_pages, first_pages-take,
  map-take, map-drop, Bool-cases, ℤ, pos,
}
use cppbackend_api.Domain.Result.{Result, ok, err, ApiResponse}
use cppbackend_api.Domain.Entities.{User}
use cppbackend_api.Domain.Permissions.{has_permission, session_read_all}
use cppbackend_api.Db.{Db, SessionRow, Outcome, commits, refused, rolled_back}
use cppbackend_api.Db.Sessions.{Ties, newest_first}
use cppbackend_api.Db.Sessions.Order.{
  newest_to_oldest, all_older, distinct_instants, length-newest_first, newest_first-perm,
  All-newest_first, newest_to_oldest-newest_first, newest_first-same,
}
use cppbackend_api.Db.Sessions.Listing.{listed, find_all_sessions}
use cppbackend_api.Auth.{Call}
use cppbackend_api.SessionUseCases.{
  SessionResponse, map_to_session_response, page_limit, page_offset, get_admin_sessions,
}
use cppbackend_api.SessionUseCases.Filters.{
  status_of-shown, page_limit-small, page_limit-bound, is_asked_for,
}

-- The sessions that an answer holds.
abbrev pub entries : Result (ApiResponse (List SessionResponse)) → List SessionResponse
entries (err e) = []
entries (ok r) = elim r.payload [ none ↦ [] | some sessions ↦ sessions ]

module _ (c : Call) (db : Db) (user_id status ip : Option String) where
  -- The whole listing, of which the answers are pages.
  abbrev pub all_listed : List SessionResponse
  all_listed = map (map_to_session_response c.now "") (
      map (λ (r : SessionRow). r.session)
        (newest_first c.ties (select (listed c.now user_id status ip) db.sessions)))

  listed-asked :
      (r : SessionRow)
      → listed c.now user_id status ip r ≡ true
      → is_asked_for user_id status ip (map_to_session_response c.now "" r.session) ≡ true
  unfolding map_to_session_response
  listed-asked r h = ground (arith, status_of-shown c.now status r)

  all_listed-asked : All (λ e. is_asked_for user_id status ip e ≡ true) all_listed
  all_listed-asked =
      All-map (map_to_session_response c.now "") (λ e. is_asked_for user_id status ip e ≡ true)
        (map (λ (r : SessionRow). r.session)
          (newest_first c.ties (select (listed c.now user_id status ip) db.sessions)))
        (All-map (λ (r : SessionRow). r.session)
          (λ s. is_asked_for user_id status ip (map_to_session_response c.now "" s) ≡ true)
          (newest_first c.ties (select (listed c.now user_id status ip) db.sessions))
          (All-newest_first c.ties
            (λ r.
              is_asked_for user_id status ip (map_to_session_response c.now "" r.session) ≡ true)
            (select (listed c.now user_id status ip) db.sessions)
            (All-select
              (λ r.
                is_asked_for user_id status ip (map_to_session_response c.now "" r.session) ≡ true)
              (listed c.now user_id status ip) db.sessions listed-asked)))

  length-all_listed :
      length all_listed ≡ length (select (listed c.now user_id status ip) db.sessions)
  length-all_listed =
      length-map (map_to_session_response c.now "") (
        map (λ (r : SessionRow). r.session)
          (newest_first c.ties (select (listed c.now user_id status ip) db.sessions)))
      ∙ (length-map (λ (r : SessionRow). r.session)
            (newest_first c.ties (select (listed c.now user_id status ip) db.sessions))
          ∙ length-newest_first c.ties (select (listed c.now user_id status ip) db.sessions))

  -- A page of the mapped rows is the page of the whole listing.
  map-page :
      (n at : ℕ)
      → map (map_to_session_response c.now "") (
          map
            (λ (r : SessionRow). r.session)
            (take n (
              drop at (newest_first c.ties (select (listed c.now user_id status ip) db.sessions)))))
        ≡ take n (drop at all_listed)
  map-page n at =
      let rows = newest_first c.ties (select (listed c.now user_id status ip) db.sessions) in
      ap (map (map_to_session_response c.now "")) (
        map-take (λ (r : SessionRow). r.session) n (drop at rows)
        ∙ ap (take n) (map-drop (λ (r : SessionRow). r.session) at rows))
      ∙ (map-take (map_to_session_response c.now "") n
            (drop at (map (λ (r : SessionRow). r.session) rows))
          ∙ ap (take n) (
              map-drop (map_to_session_response c.now "") at
                (map (λ (r : SessionRow). r.session) rows)))

  entries-allowed :
      (admin : User) (limit offset : ℤ) (o : Outcome)
      → c.outcome 0 ≡ o
      → has_permission admin session_read_all ≡ true
      → (entries (get_admin_sessions c db admin limit offset user_id status ip) ≡ [])
        ⊎ (entries (get_admin_sessions c db admin limit offset user_id status ip)
            ≡ take (page_limit limit) (drop (page_offset offset) all_listed))
  unfolding get_admin_sessions find_all_sessions
  entries-allowed admin limit offset refused h e = inl (rw e (rw h refl))
  entries-allowed admin limit offset commits h e =
      inr (rw e (rw h (map-page (page_limit limit) (page_offset offset))))
  entries-allowed admin limit offset rolled_back h e =
      inr (rw e (rw h (map-page (page_limit limit) (page_offset offset))))

  -- What one request answers, whatever becomes of its statement.
  entries-get_admin_sessions :
      (admin : User) (limit offset : ℤ)
      → (entries (get_admin_sessions c db admin limit offset user_id status ip) ≡ [])
        ⊎ (entries (get_admin_sessions c db admin limit offset user_id status ip)
            ≡ take (page_limit limit) (drop (page_offset offset) all_listed))
  unfolding get_admin_sessions
  entries-get_admin_sessions admin limit offset =
      elim (Bool-cases (has_permission admin session_read_all)) [
        | inr e ↦ inl (rw e refl)
        | inl e ↦ entries-allowed admin limit offset (c.outcome 0) refl e
      ]

  -- Whatever limit and offset a request has, the listing of all sessions answers with at most 200
  -- of them, and each is of the user and the address asked for, where they are given. Under the
  -- status filters "active" and "revoked" each is shown with that status, and under "expired" as
  -- expired or as revoked.
  pub get_admin_sessions_sound :
      (admin : User) (limit offset : ℤ)
      → (length (entries (get_admin_sessions c db admin limit offset user_id status ip)) ≤ 200)
        × All
            (λ e. is_asked_for user_id status ip e ≡ true)
            (entries (get_admin_sessions c db admin limit offset user_id status ip))
  get_admin_sessions_sound admin limit offset =
      elim (entries-get_admin_sessions admin limit offset) [
        | inl e ↦ rw e (omega arith, tt)
        | inr e ↦ rw e (
          (omega (
            arith,
            length-take (page_limit limit) (drop (page_offset offset) all_listed),
            page_limit-bound limit,
          )),
          All-take (λ x. is_asked_for user_id status ip x ≡ true) (page_limit limit)
              (drop (page_offset offset) all_listed)
              (All-drop (λ x. is_asked_for user_id status ip x ≡ true) (page_offset offset)
                all_listed all_listed-asked),
        )
      ]

  ask-page :
      (admin : User) (n at : ℕ)
      → has_permission admin session_read_all ≡ true
      → c.outcome 0 ≡ commits
      → 1 ≤ n
      → n ≤ 200
      → entries (get_admin_sessions c db admin (pos n) (pos at) user_id status ip)
        ≡ take n (drop at all_listed)
  unfolding get_admin_sessions find_all_sessions page_offset
  ask-page admin n at allowed commit low high =
      rw allowed (rw commit (rw (page_limit-small n low high) (map-page n at)))

first_pages-same :
    (ask ask' : ℕ → List SessionResponse) (n k : ℕ)
    → ((at : ℕ) → ask at ≡ ask' at)
    → first_pages ask n k ≡ first_pages ask' n k
first_pages-same ask ask' n zero h = refl
first_pages-same ask ask' n (suc k) h = rw (h (k * n)) (rw (first_pages-same ask ask' n k h) refl)

-- Each session of a list was created after those that follow.
abbrev pub all_before : ℕ → List SessionResponse → Bool
all_before instant es = all (λ e. ltb e.created_at instant) es

abbrev pub latest_first : List SessionResponse → Bool
latest_first [] = true
latest_first (e ∷ es) = all_before e.created_at es && latest_first es

-- How a row is answered.
abbrev pub shown_row : ℕ → SessionRow → SessionResponse
shown_row now r = map_to_session_response now "" r.session

all_before-shown :
    (now instant : ℕ) (rows : List SessionRow)
    → all_before instant (map (shown_row now) rows) ≡ all_older instant rows
unfolding map_to_session_response
all_before-shown now instant [] = refl
all_before-shown now instant (r ∷ rows) =
    ap (λ (b : Bool). ltb r.created_at instant && b) (all_before-shown now instant rows)

latest_first-shown :
    (now : ℕ) (rows : List SessionRow)
    → latest_first (map (shown_row now) rows) ≡ newest_to_oldest rows
unfolding map_to_session_response
latest_first-shown now [] = refl
latest_first-shown now (r ∷ rows) =
    cc (all_before-shown now r.created_at rows, latest_first-shown now rows)

map-shown :
    (now : ℕ) (rows : List SessionRow)
    → map (map_to_session_response now "") (map (λ (r : SessionRow). r.session) rows)
      ≡ map (shown_row now) rows
map-shown now [] = refl
map-shown now (r ∷ rows) =
    ap (λ (es : List SessionResponse). shown_row now r ∷ es) (map-shown now rows)

module _ (c : Call) (db : Db) (user_id status ip : Option String) where
  -- The rows that the filters let through.
  abbrev pub rows_let_through : List SessionRow
  rows_let_through = select (listed c.now user_id status ip) db.sessions

  all_listed-shown :
      all_listed c db user_id status ip
      ≡ map (shown_row c.now) (newest_first c.ties rows_let_through)
  all_listed-shown = map-shown c.now (newest_first c.ties rows_let_through)

  -- The pages of the queries, each with its own order of rows of one instant, are pages of one
  -- listing, where there are no such rows.
  pages-joined :
      (admin : User) (n k : ℕ) (ties : ℕ → Ties)
      → has_permission admin session_read_all ≡ true
      → c.outcome 0 ≡ commits
      → 1 ≤ n
      → n ≤ 200
      → length rows_let_through ≤ k * n
      → distinct_instants rows_let_through ≡ true
      → first_pages
          (λ at. entries (
            get_admin_sessions
              (record c { ties = ties at })
              db
              admin
              (pos n)
              (pos at)
              user_id
              status
              ip))
          n
          k
        ≡ all_listed c db user_id status ip
  pages-joined admin n k ties allowed commit low high room distinct =
      first_pages-same
        (λ at. entries (
          get_admin_sessions (record c { ties = ties at }) db admin (pos n) (pos at) user_id status
            ip))
        (λ at. take n (drop at (all_listed c db user_id status ip))) n k
        (λ at.
          ask-page (record c { ties = ties at }) db user_id status ip admin n at allowed commit low
            high
          ∙ ap
              (λ (rows : List SessionRow). take n (
                drop at (
                  map (map_to_session_response c.now "")
                    (map (λ (r : SessionRow). r.session) rows))))
              (newest_first-same (ties at) c.ties rows_let_through distinct))
      ∙ (first_pages-take (all_listed c db user_id status ip) n k
          ∙ take-enough (k * n) (all_listed c db user_id status ip)
              (omega (arith, length-all_listed c db user_id status ip, room)))

  -- An administrator who asks for one page after the other, each of n sessions with n from 1 to
  -- 200, at one instant and with no failure, gets every session that the filters let through
  -- exactly once, and each after the ones that were created later: once the pages have room for as
  -- many as the table holds of them, and where no two of them were created at one instant. Each
  -- query may have its own order of rows of one instant.
  pub pages_complete :
      (admin : User) (n k : ℕ) (ties : ℕ → Ties)
      → has_permission admin session_read_all ≡ true
      → c.outcome 0 ≡ commits
      → 1 ≤ n
      → n ≤ 200
      → length rows_let_through ≤ k * n
      → distinct_instants rows_let_through ≡ true
      → let joined =
          first_pages
            (λ at. entries (
              get_admin_sessions
                (record c { ties = ties at })
                db
                admin
                (pos n)
                (pos at)
                user_id
                status
                ip))
            n
            k in
        Perm joined (map (shown_row c.now) rows_let_through) × (latest_first joined ≡ true)
  pages_complete admin n k ties allowed commit low high room distinct =
      rw (pages-joined admin n k ties allowed commit low high room distinct ∙ all_listed-shown) (
        Perm.map (shown_row c.now) (newest_first-perm c.ties rows_let_through),
        latest_first-shown c.now (newest_first c.ties rows_let_through)
            ∙ newest_to_oldest-newest_first c.ties rows_let_through distinct,
      )
