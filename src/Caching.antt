-- ===== src/Caching.antt =====
-- Application/src/UseCases/CacheUseCases.cpp over the cache repository. An instant stands for its
-- ISO text.
pub mod Effects
use cppbackend_api.Base.{
  ℕ, zero, suc, Bool, true, false, Option, none, some, String, append, to_string, if◌then◌else◌,
  is_empty, ltb, leb, ℤ, pos, negsuc,
}
use cppbackend_api.Domain.Result.{Result, ok, err, fail_with, ApiResponse, respond, respond_void}
use cppbackend_api.Domain.Entities.{CacheEntry, is_entry_expired}
use cppbackend_api.Db.{Db, Outcome}
use cppbackend_api.Db.Cache.{get_cached, set_cached, remove_cached, cleanup_cache}

pub record SetCacheRequest : Type 0 where
  pub key : String
  pub value : String
  pub ttl_seconds : ℤ

pub record CacheResponse : Type 0 where
  pub key : String
  pub value : String
  pub ttl_seconds : ℕ
  pub created_at : ℕ
  pub expires_at : ℕ
  pub expired : Bool

-- CacheResponse::fromDomain.
abbrev pub cache_response : ℕ → CacheEntry → CacheResponse
cache_response now e = record {
  key = e.key;
  value = e.value;
  ttl_seconds = e.ttl_seconds;
  created_at = e.created_at;
  expires_at = e.expires_at;
  expired = is_entry_expired e now;
}

-- One hour where the request gives no positive time to live.
abbrev pub effective_ttl : ℤ → ℕ
effective_ttl (pos zero) = 3600
effective_ttl (pos (suc n)) = suc n
effective_ttl (negsuc n) = 3600

-- After the write: the entry is read back.
abbrev pub read_back : ℕ → Option CacheEntry → String → ℕ → Result (ApiResponse CacheResponse)
read_back now none key ttl =
    err
      (fail_with 500 "Failed to retrieve cache entry after set" "Cache store internal write error.")
read_back now (some e) key ttl = ok (
    respond (cache_response now e)
      (append "Cache key '"
        (append key (append "' set successfully (TTL: " (append (to_string ttl) "s)"))))
      200 now)

-- `o` numbers the two calls of the repository.
unfoldable pub set_entry :
    (ℕ → Outcome) → ℕ → Db → SetCacheRequest → Result (ApiResponse CacheResponse) × Db
set_entry o now db req =
    if is_empty req.key
    then (err (fail_with 400 "Validation failed for cache set" "Cache key cannot be empty."), db)
    else let ttl = effective_ttl req.ttl_seconds in
      let written = set_cached (o 0) now db req.key req.value ttl in
      (read_back now (get_cached (o 1) now written req.key) req.key ttl, written)

abbrev pub hit_or_miss : ℕ → Option CacheEntry → String → Result (ApiResponse CacheResponse)
hit_or_miss now none key = err (
    fail_with 404 (append "Cache key '" (append key "' not found or expired"))
      (append "No active cache entry for key: " key))
hit_or_miss now (some e) key = ok (respond (cache_response now e) "Cache hit" 200 now)

unfoldable pub get_entry : Outcome → ℕ → Db → String → Result (ApiResponse CacheResponse)
get_entry o now db key =
    if is_empty key
    then err (fail_with 400 "Validation failed" "Cache key cannot be empty.")
    else hit_or_miss now (get_cached o now db key) key

abbrev pub evicted : ℕ → String → Bool → Result (ApiResponse (Unit {0}))
evicted now key true =
    ok (respond_void (append "Cache key '" (append key "' evicted successfully")) 200 now)
evicted now key false = err (
    fail_with 404 (append "Cache key '" (append key "' not found"))
      (append "Cannot delete non-existent cache key: " key))

unfoldable pub remove_entry : Outcome → ℕ → Db → String → Result (ApiResponse (Unit {0})) × Db
remove_entry o now db key =
    if is_empty key
    then (err (fail_with 400 "Validation failed" "Cache key cannot be empty."), db)
    else let removed = remove_cached o db key in (evicted now key removed.0, removed.1)

unfoldable pub cleanup : Outcome → ℕ → Db → ApiResponse ℕ × Db
cleanup o now db =
    let cleaned = cleanup_cache o now db in
    (
      respond cleaned.0
          (append "Expired cache eviction completed: "
            (append (to_string cleaned.0) " items purged"))
          200 now,
      cleaned.1,
    )
