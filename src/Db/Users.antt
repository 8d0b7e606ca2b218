-- ===== src/Db/Users.antt =====
-- Infrastructure/src/Persistence/PostgresUserRepository.cpp.
use cppbackend_api.Base.{
  ◌+◌, ◌==◌, leb, bytes, true, ℕ, suc, Bool, false, not, ◌&&◌, Option, none, some, List, [], ◌∷◌,
  ◌++◌, String, str_eq, if◌then◌else◌, is_empty, find_first, update_where, any,
}
use cppbackend_api.Domain.Entities.{User}
use cppbackend_api.Db.{Db, Outcome, commits, refused, rolled_back, committed, sql_eq}

-- Column 6, `locked_until`, is selected and not read, nor are the two instants: the fields keep
-- their initialisers.
unfoldable pub map_user_row : ℕ → User → User
map_user_row now r = record r { locked_until = none; created_at = now; updated_at = now }

-- A SELECT with a WHERE clause, its first row mapped.
unfoldable pub find_user : (User → Bool) → Outcome → ℕ → Db → Option User
unfolding map_user_row
find_user p o now db =
    if committed o
    then elim (find_first p db.users) [ none ↦ none | some r ↦ some (map_user_row now r) ]
    else none

unfoldable pub find_user_by_id : Outcome → ℕ → Db → String → Option User
unfolding find_user
find_user_by_id o now db id = find_user (λ r. str_eq r.id id) o now db

unfoldable pub find_user_by_email : Outcome → ℕ → Db → String → Option User
unfolding find_user
find_user_by_email o now db email = find_user (λ r. str_eq r.email email) o now db

unfoldable pub find_user_by_google_id : Outcome → ℕ → Db → String → Option User
unfolding find_user
find_user_by_google_id o now db gid = find_user (λ r. sql_eq r.google_id gid) o now db

-- UNIQUE (google_id) lets any number of rows be NULL.
abbrev pub google_id_taken : List User → Option String → Bool
google_id_taken rows none = false
google_id_taken rows (some gid) = any (λ r. sql_eq r.google_id gid) rows

-- LOWER on the ASCII letters.
abbrev pub lower_byte : ℕ → ℕ
lower_byte b = if leb 65 b && leb b 90 then b + 32 else b

abbrev pub same_lower : List ℕ → List ℕ → Bool
same_lower [] [] = true
same_lower (x ∷ xs) (y ∷ ys) = lower_byte x == lower_byte y && same_lower xs ys
same_lower _ _ = false

abbrev pub same_email : String → User → Bool
same_email email r = same_lower (bytes r.email) (bytes email)

-- The unique index on LOWER(email), which implies UNIQUE (email), and UNIQUE (google_id).
abbrev pub user_accepted : List User → User → Bool
user_accepted rows user =
    not (any (same_email user.email) rows) && not (google_id_taken rows user.google_id)

abbrev pub inserted_user : String → ℕ → User → User
inserted_user id now user = record user {
  id = id;
  failed_login_attempts = 0;
  locked_until = none;
  created_at = now;
  updated_at = now;
  auth_provider = if is_empty user.auth_provider then "local" else user.auth_provider;
}

-- `id` is the uuid that the database draws. The entity takes it before the commit.
unfoldable pub create_user : Outcome → String → ℕ → Db → User → User × Db
create_user o id now db user =
    if user_accepted db.users user
    then elim o [
      | commits ↦ (
        record user { id = id },
        record db { users = db.users ++ inserted_user id now user ∷ [] },
      )
      | refused ↦ (user, db)
      | rolled_back ↦ (record user { id = id }, db)
    ]
    else (user, db)

-- UPDATE users SET … WHERE id = $1, and whether a row was affected.
unfoldable pub update_user : (User → User) → Outcome → Db → String → Bool × Db
update_user f o db id =
    if committed o
    then (
      any (λ r. str_eq r.id id) db.users,
      record db { users = update_where (λ r. str_eq r.id id) f db.users },
    )
    else (false, db)

abbrev pub has_text : Option String → Bool
has_text none = false
has_text (some s) = not (is_empty s)

abbrev pub linked_user : String → String → ℕ → User → User
linked_user gid avatar now r = record r {
  google_id = some gid;
  auth_provider = if has_text r.password_hash then "local+google" else "google";
  avatar_url = if is_empty avatar then r.avatar_url else some avatar;
  updated_at = now;
}

unfoldable pub link_google_account : Outcome → ℕ → Db → String → String → String → Bool × Db
unfolding update_user
link_google_account o now db id gid avatar =
    if any (λ r. sql_eq r.google_id gid && not (str_eq r.id id)) db.users
    then (false, db)
    else update_user (linked_user gid avatar now) o db id

abbrev pub with_password : String → ℕ → User → User
with_password hash now r = record r {
  password_hash = some hash;
  auth_provider = if has_text r.google_id then "local+google" else "local";
  updated_at = now;
}

unfoldable pub set_user_password : Outcome → ℕ → Db → String → String → Bool × Db
unfolding update_user
set_user_password o now db id hash = update_user (with_password hash now) o db id

abbrev pub with_role : User → ℕ → User → User
with_role user now r = record r { role = user.role; is_active = user.is_active; updated_at = now }

unfoldable pub update_user_role : Outcome → ℕ → Db → User → Bool × Db
unfolding update_user
update_user_role o now db user = update_user (with_role user now) o db user.id

abbrev pub one_more_failure : ℕ → User → User
one_more_failure now r = record r {
  failed_login_attempts = suc r.failed_login_attempts;
  updated_at = now;
}

unfoldable pub increment_failed_attempts : Outcome → ℕ → Db → String → Db
unfolding update_user
increment_failed_attempts o now db id = (update_user (one_more_failure now) o db id).1

abbrev pub no_failures : ℕ → User → User
no_failures now r = record r { failed_login_attempts = 0; locked_until = none; updated_at = now }

unfoldable pub reset_failed_attempts : Outcome → ℕ → Db → String → Db
unfolding update_user
reset_failed_attempts o now db id = (update_user (no_failures now) o db id).1

abbrev pub locked_user : ℕ → ℕ → User → User
locked_user until now r = record r { locked_until = some until; updated_at = now }

unfoldable pub lock_account : Outcome → ℕ → Db → String → ℕ → Db
unfolding update_user
lock_account o now db id until = (update_user (locked_user until now) o db id).1
