-- ===== src/Auth/Login/Lockout.antt =====
-- Failed logins: what they count, when they lock, and what the lock does.
use mathlib.Core.List.{append_assoc}
use cppbackend_api.Base.{
  ℕ, suc, ◌+◌, ◌≡◌, ◌≢◌, refl, true, false, inl, inr, none, some, List, [], ◌∷◌, ◌++◌, String,
  str_eq, append, if◌then◌else◌, is_empty, leb, arith, find_first, update_where, Bool-cases,
  Option-cases,
}
use cppbackend_api.Domain.Result.{ok, err, fail_with}
use cppbackend_api.Domain.Entities.{User, AuditLog}
use cppbackend_api.Validation.Credentials.{LoginRequest, validate_login}
use cppbackend_api.Db.{Db, Outcome, commits}
use cppbackend_api.Db.Users.{
  find_user_by_email, map_user_row, update_user, increment_failed_attempts, lock_account,
  locked_user, one_more_failure,
}
use cppbackend_api.Db.Audit.{record_audit}
use cppbackend_api.Auth.{Services, Call, start_session, issue_tokens}
use cppbackend_api.Auth.Login.{
  login, login_user, check_password, wrong_password, lock_if_excessive, unknown_email,
  account_locked,
}
use cppbackend_api.Auth.Login.Completeness.{login-known}
use cppbackend_api.Auth.Login.Soundness.{has_email, find_user-row}

find_user_by_email-locked_until :
    (o : Outcome) (now : ℕ) (db : Db) (email : String) (u : User)
    → find_user_by_email o now db email ≡ some u
    → u.locked_until ≡ none
unfolding find_user_by_email map_user_row
find_user_by_email-locked_until o now db email u h =
    let (r, found, mapped) = find_user-row (has_email email) o now db u h in ground arith

start_session-ne-locked :
    (svc : Services) (c : Call) (db : Db) (user : User) (days : ℕ)
    (device client event reason message : String)
    → (start_session svc c db user days device client event reason message).0 ≢ err account_locked
unfolding start_session issue_tokens
start_session-ne-locked svc c db user days device client event reason message h = ground arith

login_user-ne-locked :
    (svc : Services) (c : Call) (db : Db) (req : LoginRequest) (device client : String)
    (user : User)
    → user.locked_until ≡ none
    → (login_user svc c db req device client user).0 ≢ err account_locked
unfolding login_user check_password wrong_password
login_user-ne-locked svc c db req device client user e h = ground (
  arith,
  start_session-ne-locked svc c db user 7 device client "LOGIN_SUCCESS"
      (append "Session initiated on device: " device) "Login successful",
)

validate_login-ne-locked : (req : LoginRequest) → validate_login req ≢ err account_locked
unfolding validate_login
validate_login-ne-locked req h = ground arith

-- No login is ever refused as locked, whatever `locked_until` the table holds: the column is
-- selected and never read.
pub login-ne-locked :
    (svc : Services) (c : Call) (db : Db) (req : LoginRequest) (device client : String)
    → (login svc c db req device client).0 ≢ err account_locked
unfolding login unknown_email
login-ne-locked svc c db req device client h =
    elim (Option-cases (find_user_by_email (c.outcome 0) c.now db req.email)) [
      | inl e ↦ ground (arith, validate_login-ne-locked req)
      | inr (u, e) ↦ ground (
        arith,
        validate_login-ne-locked req,
        login_user-ne-locked svc c db req device client u
            (find_user_by_email-locked_until (c.outcome 0) c.now db req.email u e),
      )
    ]

-- The stored row after one more failure, where `attempts` were counted before: one more, and from
-- the fifth failure on locked for fifteen minutes.
abbrev pub failed_row : ℕ → ℕ → User → User
failed_row now attempts =
    if leb 5 (attempts + 1)
    then (λ r. record r {
      failed_login_attempts = suc r.failed_login_attempts;
      locked_until = some (now + 900);
      updated_at = now;
    })
    else (λ r. record r { failed_login_attempts = suc r.failed_login_attempts; updated_at = now })

abbrev logged_for : Call → String → String → String → AuditLog
logged_for c event uid reason = record {
  event_type = event;
  user_id = some uid;
  admin_user_id = none;
  session_id = none;
  ip_address = c.ip_address;
  user_agent = c.user_agent;
  reason = reason;
}

abbrev lock_log : Call → String → AuditLog
lock_log c uid =
    logged_for c "ACCOUNT_LOCKED" uid "Account locked for 15 minutes after 5 failed attempts."

abbrev failure_log : Call → String → AuditLog
failure_log c uid = logged_for c "LOGIN_FAILURE" uid "Incorrect password provided."

-- What is logged for it.
abbrev pub failure_logs : Call → String → ℕ → List AuditLog
failure_logs c uid attempts =
    (if leb 5 (attempts + 1) then lock_log c uid ∷ [] else []) ++ failure_log c uid ∷ []

update_twice :
    (id : String) (now until : ℕ) (rows : List User)
    → update_where
        (λ r. str_eq r.id id)
        (locked_user until now)
        (update_where (λ r. str_eq r.id id) (one_more_failure now) rows)
      ≡ update_where
          (λ r. str_eq r.id id)
          (λ r. locked_user until now (one_more_failure now r))
          rows
update_twice id now until [] = refl
update_twice id now until (r ∷ rows) = ground (arith, update_twice id now until rows)

login_user-wrong :
    (svc : Services) (c : Call) (db : Db) (req : LoginRequest) (device client : String) (u : User)
    (hash : String)
    → u.is_active ≡ true
    → u.locked_until ≡ none
    → u.password_hash ≡ some hash
    → is_empty hash ≡ false
    → svc.verify_password req.password hash ≡ false
    → login_user svc c db req device client u ≡ wrong_password c db u
unfolding login_user check_password
login_user-wrong svc c db req device client u hash active unlocked password some_hash wrong =
    ground arith

module _ (c : Call) (all_commit : (n : ℕ) → c.outcome n ≡ commits) where
  wrong_password-effect :
      (db : Db) (u : User)
      → ((wrong_password c db u).1.users
          ≡ update_where
              (λ r. str_eq r.id u.id)
              (failed_row c.now u.failed_login_attempts)
              db.users)
        × ((wrong_password c db u).1.audit
            ≡ db.audit ++ failure_logs c u.id u.failed_login_attempts)
        × ((wrong_password c db u).1.sessions ≡ db.sessions)
  unfolding wrong_password lock_if_excessive increment_failed_attempts lock_account update_user
      record_audit
  wrong_password-effect db u = elim (Bool-cases (leb 5 (u.failed_login_attempts + 1))) [
    | inl many ↦
        rw (many, all_commit 1, all_commit 2, all_commit 3, all_commit 4)
          (
            update_twice u.id c.now (c.now + 900) db.users,
            append_assoc db.audit (lock_log c u.id ∷ []) (failure_log c u.id ∷ []),
            refl,
          )
    | inr few ↦ rw (few, all_commit 1, all_commit 4) (refl, refl, refl)
  ]

  -- Where every statement commits: a wrong password for an active account with a password answers
  -- "Invalid email or password.", counts one failure on the account's rows, locks them for fifteen
  -- minutes from the fifth failure on, logs the failure (and the lock before it), and opens no
  -- session.
  pub login_wrong_password :
      (svc : Services) (db : Db) (req : LoginRequest) (device client : String) (r : User)
      (hash : String)
      → validate_login req ≡ ok tt
      → find_first (has_email req.email) db.users ≡ some r
      → r.is_active ≡ true
      → r.password_hash ≡ some hash
      → is_empty hash ≡ false
      → svc.verify_password req.password hash ≡ false
      → let after = login svc c db req device client in
        (after.0 ≡ err (fail_with 401 "Authentication failed" "Invalid email or password."))
        × (after.1.users
            ≡ update_where
                (λ u. str_eq u.id r.id)
                (failed_row c.now r.failed_login_attempts)
                db.users)
        × (after.1.audit ≡ db.audit ++ failure_logs c r.id r.failed_login_attempts)
        × (after.1.sessions ≡ db.sessions)
  unfolding map_user_row wrong_password
  login_wrong_password svc db req device client r hash valid found active password some_hash wrong =
      let effect = wrong_password-effect db (map_user_row c.now r) in
      rw
        (
          login-known svc c db req device client r valid (all_commit 0) found,
          login_user-wrong svc c db req device client (map_user_row c.now r) hash active refl
              password some_hash wrong,
        )
        (refl, effect.0, effect.1, effect.2)
