-- ===== src/Db/Cache.antt =====
-- Infrastructure/src/Persistence/PostgresCacheRepository.cpp.
use cppbackend_api.Base.{
  ℕ, ◌+◌, Bool, false, not, ◌&&◌, Option, none, some, [], ◌∷◌, ◌++◌, String, str_eq, if◌then◌else◌,
  ltb, leb, find_first, update_where, any, select, length,
}
use cppbackend_api.Domain.Entities.{CacheEntry}
use cppbackend_api.Db.{Db, Outcome, committed}

abbrev pub is_live : String → ℕ → CacheEntry → Bool
is_live key now r = str_eq r.key key && ltb now r.expires_at

-- The entry that is returned counts its time to live from the read.
unfoldable pub get_cached : Outcome → ℕ → Db → String → Option CacheEntry
get_cached o now db key =
    if committed o
    then elim (find_first (is_live key now) db.cache) [
      | none ↦ none
      | some r ↦ some (record r { created_at = now; expires_at = now + r.ttl_seconds })
    ]
    else none

abbrev pub overwritten : String → ℕ → ℕ → CacheEntry → CacheEntry
overwritten value ttl now r = record r { value = value; ttl_seconds = ttl; expires_at = now + ttl }

-- INSERT … ON CONFLICT (cache_key) DO UPDATE.
unfoldable pub set_cached : Outcome → ℕ → Db → String → String → ℕ → Db
set_cached o now db key value ttl =
    if committed o
    then if any (λ r. str_eq r.key key) db.cache
      then record db {
        cache = update_where (λ r. str_eq r.key key) (overwritten value ttl now) db.cache;
      }
      else record db {
        cache =
            db.cache
            ++ record {
              key = key;
              value = value;
              ttl_seconds = ttl;
              created_at = now;
              expires_at = now + ttl;
            }
              ∷ [];
      }
    else db

unfoldable pub remove_cached : Outcome → Db → String → Bool × Db
remove_cached o db key =
    if committed o
    then (
      any (λ r. str_eq r.key key) db.cache,
      record db { cache = select (λ r. not (str_eq r.key key)) db.cache },
    )
    else (false, db)

unfoldable pub cleanup_cache : Outcome → ℕ → Db → ℕ × Db
cleanup_cache o now db =
    if committed o
    then (
      length (select (λ r. leb r.expires_at now) db.cache),
      record db { cache = select (λ r. not (leb r.expires_at now)) db.cache },
    )
    else (0, db)
