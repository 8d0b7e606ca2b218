-- ===== src/Caching/Effects.antt =====
-- What a cache entry that was set answers later, and what the cleanup takes away.
use cppbackend_api.Base.{
  ℕ, zero, suc, ℤ, pos, negsuc, ◌==◌, append, ◌∙◌, ◌+◌, ◌≤◌, ◌≡◌, refl, ap, Bool, true, false, not,
  inl, inr, Option, none, some, List, [], ◌∷◌, ◌++◌, String, arith, str_eq, eq_refl, eq_iff,
  if◌then◌else◌, is_empty, ltb, leb, find_first, update_where, any, select, length, Bool-cases,
}
use cppbackend_api.Domain.Result.{Result, ok, err, ApiResponse}
use cppbackend_api.Domain.Entities.{CacheEntry}
use cppbackend_api.Db.{Db, commits}
use cppbackend_api.Db.Cache.{get_cached, set_cached, cleanup_cache, is_live, overwritten}
use cppbackend_api.Caching.{
  SetCacheRequest, set_entry, get_entry, cleanup, effective_ttl, hit_or_miss, CacheResponse,
}

-- The row of a key, whatever its expiry.
abbrev has_key : String → CacheEntry → Bool
has_key key r = str_eq r.key key

abbrev pub entry_of : String → String → ℕ → ℕ → CacheEntry
entry_of key value ttl now = record {
  key = key;
  value = value;
  ttl_seconds = ttl;
  created_at = now;
  expires_at = now + ttl;
}

abbrev over : (CacheEntry → CacheEntry) → Option CacheEntry → Option CacheEntry
over f none = none
over f (some r) = some (f r)

find_first-overwritten :
    (key value : String) (ttl now later : ℕ) (rows : List CacheEntry)
    → find_first (is_live key later) (update_where (has_key key) (overwritten value ttl now) rows)
      ≡ (if ltb later (now + ttl)
          then over (overwritten value ttl now) (find_first (has_key key) rows)
          else none)
find_first-overwritten key value ttl now later [] = ground arith
find_first-overwritten key value ttl now later (r ∷ rows) =
    ground (arith, find_first-overwritten key value ttl now later rows)

find_first-inserted :
    (key value : String) (ttl now later : ℕ) (rows : List CacheEntry)
    → any (has_key key) rows ≡ false
    → find_first (is_live key later) (rows ++ entry_of key value ttl now ∷ [])
      ≡ (if ltb later (now + ttl) then some (entry_of key value ttl now) else none)
find_first-inserted key value ttl now later [] h = ground (arith, eq_refl key)
find_first-inserted key value ttl now later (r ∷ rows) h =
    ground (arith, find_first-inserted key value ttl now later rows)

find_first-known :
    (key : String) (rows : List CacheEntry)
    → any (has_key key) rows ≡ true
    → (r : CacheEntry) × (find_first (has_key key) rows ≡ some r) × (r.key ≡ key)
find_first-known key [] h = absurd (cc h)
find_first-known key (r ∷ rows) h = elim (Bool-cases (str_eq r.key key)) [
  | inl same ↦ (r, rw same, (eq_iff r.key key).0 same)
  | inr other ↦
      let (q, found, named) = find_first-known key rows (ground (arith, h, other)) in
      (q, rw other found, named)
]

-- What a key answers after it was set: the value until its time to live is over, then nothing.
get_cached-set_cached :
    (key value : String) (ttl now later : ℕ) (db : Db)
    → get_cached commits later (set_cached commits now db key value ttl) key
      ≡ (if ltb later (now + ttl) then some (entry_of key value ttl later) else none)
unfolding get_cached set_cached
get_cached-set_cached key value ttl now later db = elim (Bool-cases (any (has_key key) db.cache)) [
  | inl known ↦
      let (r, found, named) = find_first-known key db.cache known in
      rw known (
        rw (find_first-overwritten key value ttl now later db.cache) (ground (arith, found, named)))
  | inr fresh ↦
      rw fresh (rw (find_first-inserted key value ttl now later db.cache fresh) (ground arith))
]

-- One hour, unless a positive number of seconds was asked for.
abbrev pub hour_unless : ℤ → ℕ
hour_unless (negsuc n) = 3600
hour_unless (pos n) = if n == 0 then 3600 else n

effective_ttl-hour_unless : (z : ℤ) → effective_ttl z ≡ hour_unless z
effective_ttl-hour_unless (negsuc n) = refl
effective_ttl-hour_unless (pos zero) = refl
effective_ttl-hour_unless (pos (suc n)) = ground arith

-- The answers of a read at `later`: the value, with what is left to say of it, or nothing.
abbrev pub found_answer : String → String → ℕ → ℕ → Result (ApiResponse CacheResponse)
found_answer key value ttl later = ok (record {
  success = true;
  status_code = 200;
  message = "Cache hit";
  payload = some (record {
    key = key;
    value = value;
    ttl_seconds = ttl;
    created_at = later;
    expires_at = later + ttl;
    expired = false;
  });
  errors = [];
  timestamp = later;
})

abbrev pub missing_answer : String → Result (ApiResponse CacheResponse)
missing_answer key = err (record {
  message = append "Cache key '" (append key "' not found or expired");
  status_code = 404;
  details = append "No active cache entry for key: " key ∷ [];
})

-- A time to live that is not negative is not over at once.
unexpired_answer :
    (later : ℕ) (key value : String) (ttl : ℕ)
    → hit_or_miss later (some (entry_of key value ttl later)) key ≡ found_answer key value ttl later
unexpired_answer later key value ttl =
    let e : ltb (later + ttl) later ≡ false = ground arith in rw e refl

hit_or_miss-entry :
    (later : ℕ) (key value : String) (ttl : ℕ) (live : Bool)
    → hit_or_miss later (if live then some (entry_of key value ttl later) else none) key
      ≡ (if live then found_answer key value ttl later else missing_answer key)
hit_or_miss-entry later key value ttl true = unexpired_answer later key value ttl
hit_or_miss-entry later key value ttl false = refl

-- An entry that was set answers with its value until its time to live is over (one hour where the
-- request gave none that is positive), and with 404 from then on: where the key is not empty and the
-- calls commit, whatever was stored before, also under the same key.
pub set_entry-get_entry :
    (now later : ℕ) (db : Db) (req : SetCacheRequest)
    → is_empty req.key ≡ false
    → let ttl = hour_unless req.ttl_seconds in
      get_entry commits later (set_entry (λ n. commits) now db req).1 req.key ≡ (
        if ltb later (now + ttl)
        then found_answer req.key req.value ttl later
        else missing_answer req.key)
unfolding get_entry set_entry
set_entry-get_entry now later db req given = rw given (
    ap (λ (e : Option CacheEntry). hit_or_miss later e req.key)
      (get_cached-set_cached req.key req.value (effective_ttl req.ttl_seconds) now later db)
    ∙ (hit_or_miss-entry later req.key req.value (effective_ttl req.ttl_seconds)
          (ltb later (now + effective_ttl req.ttl_seconds))
        ∙ ap
            (λ (ttl : ℕ).
              if ltb later (now + ttl)
              then found_answer req.key req.value ttl later
              else missing_answer req.key)
            (effective_ttl-hour_unless req.ttl_seconds)))

find_first-cleaned :
    (key : String) (now later : ℕ) (rows : List CacheEntry)
    → now ≤ later
    → find_first (is_live key later) (select (λ r. not (leb r.expires_at now)) rows)
      ≡ find_first (is_live key later) rows
find_first-cleaned key now later [] h = refl
find_first-cleaned key now later (r ∷ rows) h =
    ground (arith, find_first-cleaned key now later rows h)

length-split :
    (p : CacheEntry → Bool) (rows : List CacheEntry)
    → length (select p rows) + length (select (λ r. not (p r)) rows) ≡ length rows
length-split p [] = refl
length-split p (r ∷ rows) = ground (arith, length-split p rows)

counted :
    (now : ℕ) (db : Db)
    → length (cleanup_cache commits now db).1.cache + (cleanup_cache commits now db).0
      ≡ length db.cache
unfolding cleanup_cache
counted now db = omega (arith, length-split (λ r. leb r.expires_at now) db.cache)

same_entry :
    (now later : ℕ) (db : Db) (key : String)
    → now ≤ later
    → get_entry commits later (cleanup_cache commits now db).1 key ≡ get_entry commits later db key
unfolding get_entry get_cached cleanup_cache
same_entry now later db key h = rw (find_first-cleaned key now later db.cache h)

-- A cleanup takes away no entry that a read could still find: from its instant on every key answers
-- as before. It reports as many entries as it took away.
pub cleanup_lem :
    (now later : ℕ) (db : Db) (key : String)
    → now ≤ later
    → let (resp, after) = cleanup commits now db in
      (get_entry commits later after key ≡ get_entry commits later db key)
      × (count : ℕ) × (resp.payload ≡ some count)
      × (length after.cache + count ≡ length db.cache)
unfolding cleanup get_entry
cleanup_lem now later db key h =
    (same_entry now later db key h, (cleanup_cache commits now db).0, refl, counted now db)
