-- ===== src/Domain/Entities.antt =====
-- Domain/Entities. An instant is a number of seconds since the epoch.
use cppbackend_api.Base.{ℕ, Bool, not, ◌&&◌, Option, String, ltb, leb, is_some}

pub record User : Type 0 where
  pub id : String
  pub email : String
  pub password_hash : Option String
  pub role : String
  pub is_active : Bool
  pub failed_login_attempts : ℕ
  pub locked_until : Option ℕ
  pub created_at : ℕ
  pub updated_at : ℕ
  pub google_id : Option String
  pub auth_provider : String
  pub avatar_url : Option String

pub record Session : Type 0 where
  pub id : String
  pub user_id : String
  pub jti : String
  pub refresh_token_hash : String
  pub created_at : ℕ
  pub last_seen_at : ℕ
  pub expires_at : ℕ
  pub revoked_at : Option ℕ
  pub revocation_reason : Option String
  pub ip_address : String
  pub user_agent : String
  pub device_name : String
  pub client_type : String

abbrev pub is_revoked : Session → Bool
is_revoked s = is_some s.revoked_at

abbrev pub is_expired : Session → ℕ → Bool
is_expired s now = leb s.expires_at now

abbrev pub is_session_active : Session → ℕ → Bool
is_session_active s now = not (is_revoked s) && not (is_expired s now)

pub record AuditLog : Type 0 where
  pub event_type : String
  pub user_id : Option String
  pub admin_user_id : Option String
  pub session_id : Option String
  pub ip_address : String
  pub user_agent : String
  pub reason : String

pub record CacheEntry : Type 0 where
  pub key : String
  pub value : String
  pub ttl_seconds : ℕ
  pub created_at : ℕ
  pub expires_at : ℕ

-- CacheEntry::isExpired, strictly after the instant, unlike a session's.
abbrev pub is_entry_expired : CacheEntry → ℕ → Bool
is_entry_expired e now = ltb e.expires_at now

pub record QueueMessage : Type 0 where
  pub id : ℕ
  pub topic : String
  pub payload : String
  pub status : String
  pub retry_count : ℕ
  pub created_at : ℕ
  pub processed_at : Option ℕ

pub record Todo : Type 0 where
  pub id : ℕ
  pub title : String
  pub description : String
  pub completed : Bool
  pub created_at : ℕ
  pub updated_at : ℕ
