-- ===== src/Auth/Google/Identity.antt =====
-- As whom a Google login logs in.
use cppbackend_api.Base.{
  ℕ, ◌≡◌, refl, sym, ap, ◌∙◌, Bool, true, false, not, ◌&&◌, inl, inr, Option, none, some, List, [],
  ◌∷◌, String, ◌⊎◌, str_eq, eq_iff, if◌then◌else◌, is_empty, arith, find_first, any, update_where,
  Bool-cases, Option-cases,
}
use mathlib.Core.Path.{subst}
use cppbackend_api.Domain.Result.{Result, ok, err, ApiResponse, Result-cases}
use cppbackend_api.Domain.Entities.{User}
use cppbackend_api.Db.{Db, Outcome, commits, sql_eq}
use cppbackend_api.Db.Users.{
  find_user, find_user_by_google_id, find_user_by_email, find_user_by_id, link_google_account,
  linked_user, create_user, update_user, map_user_row, has_text,
}
use cppbackend_api.Db.Audit.{record_audit}
use cppbackend_api.Auth.{Services, Call, GoogleUserInfo, GoogleAuthService, TokenResponse}
use cppbackend_api.Auth.Expected.{signed_in}
use cppbackend_api.Db.Cache.{remove_cached}
use cppbackend_api.Auth.Login.Soundness.{has_email, find_user-row, start_session-ok}
use cppbackend_api.Auth.Refresh.Rotation.{has_id}
use cppbackend_api.Auth.Google.{
  exchange, effective_verifier, cached_verifier, GoogleLoginRequest, identify, target_user,
  link_account, finish_signup, admit, admit_identified, login_with_google, google_user,
}

abbrev has_google_id : String → User → Bool
has_google_id gid r = sql_eq r.google_id gid

sql_eq-true : (o : Option String) (s : String) → sql_eq o s ≡ true → o ≡ some s
sql_eq-true none s h = absurd (ground arith)
sql_eq-true (some t) s h = ap (λ (x : String). some x) ((eq_iff t s).0 h)

find_first-holds :
    (p : User → Bool) (rows : List User) (r : User) → find_first p rows ≡ some r → p r ≡ true
find_first-holds p [] r h = absurd (ground arith)
find_first-holds p (q ∷ rows) r h = ground (arith, find_first-holds p rows r)

-- Where no user has a Google id, no other user has it either.
none_else :
    (gid id : String) (rows : List User)
    → find_first (has_google_id gid) rows ≡ none
    → any (λ r. sql_eq r.google_id gid && not (str_eq r.id id)) rows ≡ false
none_else gid id [] h = refl
none_else gid id (r ∷ rows) h = ground (arith, none_else gid id rows)

find_user_by_google_id-none :
    (o : Outcome) (now : ℕ) (db : Db) (gid : String)
    → o ≡ commits
    → find_user_by_google_id o now db gid ≡ none
    → find_first (has_google_id gid) db.users ≡ none
unfolding find_user_by_google_id find_user
find_user_by_google_id-none o now db gid commit h = ground (arith, commit)

-- The row of an id after an update of the rows with that id.
found_updated :
    (id : String) (f : User → User) (rows : List User) (r : User)
    → ((x : User) → (f x).id ≡ x.id)
    → find_first (has_id id) (update_where (has_id id) f rows) ≡ some r
    → (q : User) × (find_first (has_id id) rows ≡ some q) × (r ≡ f q)
found_updated id f [] r keeps h = absurd (ground arith)
found_updated id f (x ∷ rows) r keeps h = elim (Bool-cases (str_eq x.id id)) [
  | inl e ↦ (x, rw e refl, ground (arith, e, keeps x, h))
  | inr e ↦
      let (q, found, same) = found_updated id f rows r keeps (ground (arith, e, h)) in
      (q, rw e found, same)
]

link_account-users :
    (c : Call) (db : Db) (info : GoogleUserInfo) (user : User)
    → c.outcome 4 ≡ commits
    → any (λ r. sql_eq r.google_id info.google_id && not (str_eq r.id user.id)) db.users ≡ false
    → (link_account c db info user).users
      ≡ update_where (has_id user.id) (linked_user info.google_id info.picture c.now) db.users
unfolding link_account link_google_account update_user record_audit
link_account-users c db info user commit free = ground (arith, commit, free)

create_user-named :
    (o : Outcome) (id : String) (now : ℕ) (db : Db) (u : User)
    → (new_id : String) × ((create_user o id now db u).0 ≡ record u { id = new_id })
unfolding create_user
create_user-named o id now db u = ((create_user o id now db u).0.id, ground arith)

finish_signup-ok :
    (c : Call) (made u : User) (db db' : Db)
    → finish_signup c (made, db) ≡ (ok (some u), db')
    → u ≡ made
unfolding finish_signup
finish_signup-ok c made u db db' h = ground arith

-- The stored user `q` after the linking with what Google says.
abbrev pub linked_account : Call → GoogleUserInfo → User → User
linked_account c info q = record q {
  google_id = some info.google_id;
  auth_provider = if has_text q.password_hash then "local+google" else "google";
  avatar_url = if is_empty info.picture then q.avatar_url else some info.picture;
  updated_at = c.now;
}

-- A new account for what Google says.
abbrev pub new_account : Call → GoogleUserInfo → String → User
new_account c info id = record {
  id = id;
  email = info.email;
  password_hash = none;
  role = "user";
  is_active = true;
  failed_login_attempts = 0;
  locked_until = none;
  created_at = c.now;
  updated_at = c.now;
  google_id = some info.google_id;
  auth_provider = "google";
  avatar_url = if is_empty info.picture then none else some info.picture;
}

-- `u` is the first stored user with Google's id; or, where there is none, the stored user who has
-- the id of the first one with the email, linked; or a new account.
abbrev pub ByGoogleId : Call → List User → GoogleUserInfo → User → Type 0
ByGoogleId c users info u =
    (r : User) × (find_first (λ x. sql_eq x.google_id info.google_id) users ≡ some r)
    × (u ≡ map_user_row c.now r)

abbrev pub ByEmail : Call → List User → GoogleUserInfo → User → Type 0
ByEmail c users info u =
    (find_first (λ x. sql_eq x.google_id info.google_id) users ≡ none)
    × (r : User) × (find_first (λ x. str_eq x.email info.email) users ≡ some r)
    × (q : User) × (find_first (λ x. str_eq x.id r.id) users ≡ some q)
    × (u ≡ map_user_row c.now (linked_account c info q))

abbrev pub IsNew : Call → List User → GoogleUserInfo → User → Type 0
IsNew c users info u =
    (find_first (λ x. sql_eq x.google_id info.google_id) users ≡ none)
    × (id : String) × (u ≡ new_account c info id)

abbrev pub IsAccount : Call → List User → GoogleUserInfo → User → Type 0
IsAccount c users info u =
    ByGoogleId c users info u ⊎ (ByEmail c users info u ⊎ IsNew c users info u)

-- The user behind an email, linked and read again.
target_user-linked :
    (c : Call) (db db' : Db) (info : GoogleUserInfo) (v u : User)
    → c.outcome 4 ≡ commits
    → find_first (has_google_id info.google_id) db.users ≡ none
    → find_user_by_email (c.outcome 3) c.now db info.email ≡ some v
    → find_user_by_id (c.outcome 9) c.now (link_account c db info v) v.id ≡ some u
    → ByEmail c db.users info u
unfolding find_user_by_email find_user_by_id map_user_row
target_user-linked c db db' info v u link unknown known again =
    let (r, found, mapped) = find_user-row (has_email info.email) (c.outcome 3) c.now db v known in
    let (r', found', mapped') =
      find_user-row (has_id v.id) (c.outcome 9) c.now (link_account c db info v) u again in
    let stored =
      link_account-users c db info v link (none_else info.google_id v.id db.users unknown) in
    let (q, place, same) =
      found_updated v.id (linked_user info.google_id info.picture c.now) db.users r' (λ x. refl)
        (sym (ap (find_first (has_id v.id)) stored) ∙ found') in
    let same_id : v.id ≡ r.id = ap (λ (x : User). x.id) mapped in
    (
      unknown,
      r,
      found,
      q,
      sym (ap (λ (id : String). find_first (has_id id) db.users) same_id) ∙ place,
      mapped' ∙ ap (map_user_row c.now) same,
    )

-- Who is chosen.
target_user-IsAccount :
    (c : Call) (db db' : Db) (info : GoogleUserInfo) (u : User)
    → c.outcome 2 ≡ commits
    → c.outcome 4 ≡ commits
    → target_user c db info ≡ (ok (some u), db')
    → IsAccount c db.users info u
unfolding target_user find_user_by_google_id
target_user-IsAccount c db db' info u look link h =
    elim (Option-cases (find_user_by_google_id (c.outcome 2) c.now db info.google_id)) [
      | inr (v, e) ↦
          let (r, found, mapped) =
            find_user-row (has_google_id info.google_id) (c.outcome 2) c.now db v e in
          let same : u ≡ v = ground (arith, h, e) in inl (r, found, same ∙ mapped)
      | inl e ↦
          let unknown = find_user_by_google_id-none (c.outcome 2) c.now db info.google_id look e in
          elim (Option-cases (find_user_by_email (c.outcome 3) c.now db info.email)) [
            | inr (v, e') ↦
                inr (inl (target_user-linked c db db' info v u link unknown e' (ground arith)))
            | inl e' ↦
                let fresh : User = google_user c info in
                let made : User × Db = create_user (c.outcome 10) c.drawn_user_id c.now db fresh in
                let (id, named) = create_user-named (c.outcome 10) c.drawn_user_id c.now db fresh in
                inr
                  (inr (unknown, id, finish_signup-ok c made.0 u made.1 db' (ground arith) ∙ named))
          ]
    ]

IsAccount-links :
    (c : Call) (db : Db) (info : GoogleUserInfo) (u : User)
    → IsAccount c db.users info u
    → u.google_id ≡ some info.google_id
unfolding map_user_row
IsAccount-links c db info u (inl (r, found, same)) =
    ap (λ (x : User). x.google_id) same
    ∙ sql_eq-true r.google_id info.google_id
        (find_first-holds (has_google_id info.google_id) db.users r found)
IsAccount-links c db info u (inr (inl (unknown, r, found, q, place, same))) =
    ap (λ (x : User). x.google_id) same
IsAccount-links c db info u (inr (inr (unknown, id, same))) = ap (λ (x : User). x.google_id) same

abbrev pub google_answer : Services → Call → String → User → ApiResponse TokenResponse
google_answer svc c sid u = signed_in svc c sid u "Google authentication successful"

admit-ok :
    (svc : Services) (c : Call) (req : GoogleLoginRequest) (r : Result (Option User)) (db db' : Db)
    (resp : ApiResponse TokenResponse)
    → admit svc c req (r, db) ≡ (ok resp, db')
    → (u : User) × (sid : String) × (r ≡ ok (some u))
      × (u.is_active ≡ true)
      × (resp ≡ google_answer svc c sid u)
unfolding admit
admit-ok svc c req (err e) db db' resp h = absurd (ground arith)
admit-ok svc c req (ok none) db db' resp h = absurd (ground arith)
admit-ok svc c req (ok (some u)) db db' resp h = elim (Bool-cases u.is_active) [
  | inr e ↦ absurd (ground (arith, e))
  | inl e ↦
      let (sid, answer) =
        start_session-ok svc c db db' u 30
          (if is_empty req.device_name then "Google Client" else req.device_name)
          (if is_empty req.client_type then "browser" else req.client_type) "AUTH_GOOGLE_SUCCESS"
          "Session initiated via Google OAuth2/OIDC" "Google authentication successful" resp
          (ground (arith, e)) in
      (u, sid, refl, e, answer)
]

-- The verifier is looked up in the cache, which leaves the users alone.
identify-users :
    (svc : Services) (c : Call) (db : Db) (google : GoogleAuthService) (req : GoogleLoginRequest)
    → (identify svc c db google req).1.users ≡ db.users
unfolding identify exchange effective_verifier cached_verifier remove_cached
identify-users svc c db google req = ground arith

-- A Google login that succeeds is one whom Google vouched for. It enters the first stored user with
-- Google's id; or, where there is none, the stored user of the same email, who is linked; or an
-- account that is made for it. The account is active and has Google's id, and the response names it
-- and carries the drawn refresh token and an access token of fifteen minutes. The look-up by Google
-- id and the linking commit.
pub login_with_google_identity :
    (svc : Services) (c : Call) (db db' : Db) (req : GoogleLoginRequest)
    (resp : ApiResponse TokenResponse)
    → c.outcome 2 ≡ commits
    → c.outcome 4 ≡ commits
    → login_with_google svc c db req ≡ (ok resp, db')
    → (google : GoogleAuthService) × (info : GoogleUserInfo) × (u : User) × (sid : String)
      × (svc.google ≡ some google)
      × ((identify svc c db google req).0 ≡ ok info)
      × IsAccount c db.users info u
      × (u.google_id ≡ some info.google_id)
      × (u.is_active ≡ true)
      × (resp ≡ google_answer svc c sid u)
unfolding login_with_google admit_identified
login_with_google_identity svc c db db' req resp look link h = elim (Option-cases svc.google) [
  | inl e ↦ absurd (ground arith)
  | inr (google, e) ↦
      let known : Result GoogleUserInfo × Db = identify svc c db google req in
      elim (Result-cases known.0) [
        | inr (failure, e') ↦ absurd (ground arith)
        | inl (info, e') ↦
            let chosen : Result (Option User) × Db = target_user c known.1 info in
            let (u, sid, same, active, answer) =
              admit-ok svc c req chosen.0 chosen.1 db' resp (ground arith) in
            let account : IsAccount c known.1.users info u =
              target_user-IsAccount c known.1 chosen.1 info u look link (ground arith) in
            let account' : IsAccount c db.users info u =
              subst (λ (users : List User). IsAccount c users info u)
                (identify-users svc c db google req) account in
            (
              google,
              info,
              u,
              sid,
              e,
              e',
              account',
              IsAccount-links c db info u account',
              active,
              answer,
            )
      ]
]
