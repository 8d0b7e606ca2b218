-- ===== src/Db.antt =====
-- The PostgreSQL tables that the repositories of Infrastructure/src/Persistence read and write
-- (migrations/001, 002 and 004), and how a transaction can end. Statements are translated with
-- their WHERE, SET and ON CONFLICT parts over lists of rows in table order.
pub mod Users
pub mod Sessions
pub mod Cache
pub mod Audit
use cppbackend_api.Base.{ℕ, Bool, true, false, Option, none, some, List, String, str_eq}
use cppbackend_api.Domain.Entities.{User, Session, AuditLog, CacheEntry}

-- A row of `sessions`.
pub record SessionRow : Type 0 where
  pub session : Session
  pub open session use *
  pub previous_refresh_token_hash : Option String

-- A row of `token_revocations`.
pub record Revocation : Type 0 where
  pub jti : String
  pub session_id : String
  pub expires_at : ℕ
  pub revoked_at : ℕ

pub record Db : Type 0 where
  pub users : List User
  pub sessions : List SessionRow
  pub revocations : List Revocation
  pub cache : List CacheEntry
  pub audit : List AuditLog
  pub notified : List String

-- How one repository call fares: it commits, it throws at its first statement (no connection, a
-- malformed parameter, a constraint), or it throws later, when the transaction is undone but what
-- was assigned from its rows stays.
pub data Outcome : Type 0 where
  commits refused rolled_back : Outcome

abbrev pub committed : Outcome → Bool
committed commits = true
committed refused = false
committed rolled_back = false

-- `column = $1` on a nullable column: NULL equals nothing.
abbrev pub sql_eq : Option String → String → Bool
sql_eq none t = false
sql_eq (some s) t = str_eq s t
