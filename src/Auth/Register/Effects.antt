-- ===== src/Auth/Register/Effects.antt =====
-- What a registration and a new password leave in `users`.
use cppbackend_api.Base.{
  bytes, ℕ, ◌≡◌, ◌⊎◌, refl, ap, ◌∙◌, Bool, true, false, not, ◌&&◌, inl, inr, List, [], ◌∷◌, ◌++◌,
  String, if◌then◌else◌, is_empty, arith, any, Bool-cases,
}
use cppbackend_api.Domain.Result.{ok, ApiResponse, created}
use cppbackend_api.Domain.Entities.{User, AuditLog}
use cppbackend_api.Validation.Credentials.{RegisterRequest, validate_register}
use cppbackend_api.Db.{Db, Outcome, commits, rolled_back}
use cppbackend_api.Db.Users.{same_email, same_lower}
use cppbackend_api.Db.Users.{create_user, inserted_user, user_accepted}
use cppbackend_api.Db.Audit.{record_audit}
use cppbackend_api.Auth.{Services, Call}
use cppbackend_api.Auth.Register.{RegisterResponse, registered_user, register_user, finish_register}

record_audit-users :
    (o : Outcome) (db : Db) (log : AuditLog) → (record_audit o db log).users ≡ db.users
unfolding record_audit
record_audit-users o db log = ground arith

create_user-stored :
    (o : Outcome) (id : String) (now : ℕ) (db : Db) (u : User)
    → is_empty u.id ≡ true
    → is_empty (create_user o id now db u).0.id ≡ false
    → (user_accepted db.users u ≡ true)
      × ((create_user o id now db u).0 ≡ record u { id = id })
      × (((o ≡ commits)
            × ((create_user o id now db u).1.users ≡ db.users ++ inserted_user id now u ∷ []))
          ⊎ ((o ≡ rolled_back) × ((create_user o id now db u).1.users ≡ db.users)))
unfolding create_user
create_user-stored o id now db u fresh named = elim (Bool-cases (user_accepted db.users u)) [
  | inl e ↦ ground (arith, e)
  | inr e ↦ absurd (ground (arith, e))
]

finish_register-ok :
    (c : Call) (made : User) (db db' : Db) (resp : ApiResponse RegisterResponse)
    → finish_register c (made, db) ≡ (ok resp, db')
    → (is_empty made.id ≡ false)
      × (resp
          ≡ created
              (record {
                id = made.id;
                email = made.email;
                role = made.role;
                created_at = made.created_at;
              })
              "User registered successfully"
              c.now)
      × (db'.users ≡ db.users)
unfolding finish_register record_audit
finish_register-ok c made db db' resp h = ground arith

register_user-ok :
    (svc : Services) (c : Call) (db db' : Db) (req : RegisterRequest)
    (resp : ApiResponse RegisterResponse)
    → register_user svc c db req ≡ (ok resp, db')
    → (validate_register req ≡ ok tt)
      × (finish_register c
            (create_user (c.outcome 1) c.drawn_user_id c.now db (registered_user svc c req))
          ≡ (ok resp, db'))
unfolding register_user
register_user-ok svc c db db' req resp h = ground arith

-- The user that a registration stores.
abbrev pub stored_user : Services → Call → RegisterRequest → User
stored_user svc c req = inserted_user c.drawn_user_id c.now (registered_user svc c req)

-- A registration that succeeds was valid and of an email that no stored user has, in
-- whatever case its letters are. The response
-- names the drawn id, the email and the role that was asked for ("user" where none was); and either
-- the insertion committed and the users are the old ones and the new one, or it was undone after
-- its row came back and the users are as before.
pub register_user_sound :
    (svc : Services) (c : Call) (db db' : Db) (req : RegisterRequest)
    (resp : ApiResponse RegisterResponse)
    → register_user svc c db req ≡ (ok resp, db')
    → (validate_register req ≡ ok tt)
      × (any (same_email req.email) db.users ≡ false)
      × (resp
          ≡ created
              (record {
                id = c.drawn_user_id;
                email = req.email;
                role = if is_empty req.role then "user" else req.role;
                created_at = c.now;
              })
              "User registered successfully"
              c.now)
      × (((c.outcome 1 ≡ commits) × (db'.users ≡ db.users ++ stored_user svc c req ∷ []))
          ⊎ ((c.outcome 1 ≡ rolled_back) × (db'.users ≡ db.users)))
register_user_sound svc c db db' req resp h =
    let (valid, finished) = register_user-ok svc c db db' req resp h in
    let u : User = registered_user svc c req in
    let made : User × Db = create_user (c.outcome 1) c.drawn_user_id c.now db u in
    let (named, answer, same) = finish_register-ok c made.0 made.1 db' resp finished in
    let (accepted, identity, stored) =
      create_user-stored (c.outcome 1) c.drawn_user_id c.now db u refl named in
    (
      valid,
      ground (arith, accepted),
      answer
          ∙ ap
              (λ (m : User).
                created
                  (record { id = m.id; email = m.email; role = m.role; created_at = m.created_at })
                  "User registered successfully" c.now)
              identity,
      rw same stored,
    )

-- No two users have one email, but for the case of its letters.
abbrev pub unique_emails : List User → Bool
unique_emails [] = true
unique_emails (r ∷ rows) = not (any (same_email r.email) rows) && unique_emails rows

same_lower_sym : (xs ys : List ℕ) → same_lower xs ys ≡ same_lower ys xs
same_lower_sym [] [] = refl
same_lower_sym [] (y ∷ ys) = refl
same_lower_sym (x ∷ xs) [] = refl
same_lower_sym (x ∷ xs) (y ∷ ys) = ground (arith, same_lower_sym xs ys)

any-appended :
    (email : String) (u : User) (rows : List User)
    → any (same_email email) rows ≡ false
    → same_email email u ≡ false
    → any (same_email email) (rows ++ u ∷ []) ≡ false
any-appended email u [] h e = ground (arith, e)
any-appended email u (r ∷ rows) h e = ground (arith, any-appended email u rows)

unique_emails-appended :
    (u : User) (rows : List User)
    → unique_emails rows ≡ true
    → any (same_email u.email) rows ≡ false
    → unique_emails (rows ++ u ∷ []) ≡ true
unique_emails-appended u [] h new = refl
unique_emails-appended u (r ∷ rows) h new = ground (
  arith,
  unique_emails-appended u rows,
  any-appended r.email u rows,
  same_lower_sym (bytes r.email) (bytes u.email),
)

create_user-keeps_unique :
    (o : Outcome) (id : String) (now : ℕ) (db : Db) (u : User)
    → unique_emails db.users ≡ true
    → unique_emails (create_user o id now db u).1.users ≡ true
unfolding create_user
create_user-keeps_unique o id now db u h =
    ground (arith, unique_emails-appended (inserted_user id now u) db.users)

finish_register-users :
    (c : Call) (made : User) (db : Db) → (finish_register c (made, db)).1.users ≡ db.users
unfolding finish_register record_audit
finish_register-users c made db = ground arith

-- A registration, whatever it answers and however its statements fare, keeps the emails distinct,
-- but for the case of their letters.
pub register_user-keeps_unique_emails :
    (svc : Services) (c : Call) (db : Db) (req : RegisterRequest)
    → unique_emails db.users ≡ true
    → unique_emails (register_user svc c db req).1.users ≡ true
unfolding register_user
register_user-keeps_unique_emails svc c db req h =
    let u : User = registered_user svc c req in
    let made : User × Db = create_user (c.outcome 1) c.drawn_user_id c.now db u in
    ground (
      arith,
      finish_register-users c made.0 made.1,
      create_user-keeps_unique (c.outcome 1) c.drawn_user_id c.now db u h,
    )
