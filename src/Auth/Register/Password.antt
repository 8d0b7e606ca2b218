-- ===== src/Auth/Register/Password.antt =====
-- What `setPassword` leaves in `users`.
use cppbackend_api.Base.{
  ◌≤◌, ◌≡◌, refl, ap, ◌∙◌, true, not, inl, inr, some, List, [], ◌∷◌, String, str_eq, size, arith,
  find_first, any, update_where, select, Bool-cases, Option-cases,
}
use cppbackend_api.Domain.Result.{ok, ApiResponse}
use cppbackend_api.Domain.Entities.{User}
use cppbackend_api.Db.{Db}
use cppbackend_api.Db.Users.{find_user_by_id, update_user, set_user_password, with_password}
use cppbackend_api.Db.Audit.{record_audit}
use cppbackend_api.Auth.{Services, Call}
use cppbackend_api.Auth.Refresh.Rotation.{has_id}
use cppbackend_api.Auth.Register.{set_password, finish_set_password}

find_first-updated :
    (id : String) (f : User → User) (rows : List User)
    → ((r : User) → (f r).id ≡ r.id)
    → any (has_id id) rows ≡ true
    → (r : User) × (find_first (has_id id) rows ≡ some r)
      × (find_first (has_id id) (update_where (has_id id) f rows) ≡ some (f r))
find_first-updated id f [] keeps h = absurd (ground arith)
find_first-updated id f (r ∷ rows) keeps h = elim (Bool-cases (str_eq r.id id)) [
  | inl e ↦ (r, ground (arith, e), ground (arith, e, keeps r))
  | inr e ↦
      let (q, found, after) = find_first-updated id f rows keeps (ground arith) in
      (q, ground (arith, e), ground (arith, e))
]

select-others_kept :
    (id : String) (f : User → User) (rows : List User)
    → ((r : User) → (f r).id ≡ r.id)
    → select (λ r. not (has_id id r)) (update_where (has_id id) f rows)
      ≡ select (λ r. not (has_id id r)) rows
select-others_kept id f [] keeps = refl
select-others_kept id f (r ∷ rows) keeps =
    ground (arith, keeps r, select-others_kept id f rows keeps)

set_password-ok :
    (svc : Services) (c : Call) (db db' : Db) (uid password : String)
    (resp : ApiResponse (Unit {0}))
    → set_password svc c db uid password ≡ (ok resp, db')
    → (8 ≤ size password)
      × (any (has_id uid) db.users ≡ true)
      × (db'.users
          ≡ update_where (has_id uid) (with_password (svc.hash_password password) c.now) db.users)
unfolding set_password finish_set_password set_user_password update_user record_audit
set_password-ok svc c db db' uid password resp h =
    elim (Option-cases (find_user_by_id (c.outcome 0) c.now db uid)) [
      | inl e ↦ absurd (ground arith)
      | inr (u, e) ↦ ground arith
    ]

-- A new password that is accepted has at least eight bytes and is the password of a stored user,
-- whose row holds its hash afterwards, as a local account or one that is local and Google's; the
-- rows of the others are as before.
pub set_password_sound :
    (svc : Services) (c : Call) (db db' : Db) (uid password : String)
    (resp : ApiResponse (Unit {0}))
    → set_password svc c db uid password ≡ (ok resp, db')
    → (8 ≤ size password)
      × (r : User) × (find_first (has_id uid) db.users ≡ some r)
      × (find_first (has_id uid) db'.users
          ≡ some (with_password (svc.hash_password password) c.now r))
      × (select (λ u. not (has_id uid u)) db'.users ≡ select (λ u. not (has_id uid u)) db.users)
set_password_sound svc c db db' uid password resp h =
    let (long, hit, stored) = set_password-ok svc c db db' uid password resp h in
    let f : User → User = with_password (svc.hash_password password) c.now in
    let (r, found, after) = find_first-updated uid f db.users (λ _. refl) hit in
    (
      long,
      r,
      found,
      ap (find_first (has_id uid)) stored ∙ after,
      ap (select (λ u. not (has_id uid u))) stored ∙ select-others_kept uid f db.users (λ _. refl),
    )
