-- ===== src/Auth/Google/State.antt =====
-- The PKCE state: what `getGoogleAuthUrl` caches is what a callback finds, once.
use cppbackend_api.Base.{
  ℕ, ◌+◌, ◌<◌, ◌≡◌, refl, ap, ◌∙◌, true, false, not, inl, inr, Option, none, some, List, [], ◌∷◌,
  ◌++◌, String, str_eq, eq_refl, is_empty, arith, find_first, update_where, any, select, Bool-cases,
  Option-cases,
}
use cppbackend_api.Domain.Result.{Result, ok, err, ApiResponse, is_ok}
use cppbackend_api.Domain.Entities.{CacheEntry}
use cppbackend_api.Db.{Db, Outcome, commits}
use cppbackend_api.Db.Cache.{get_cached, set_cached, remove_cached, is_live, overwritten}
use cppbackend_api.Auth.{Services, Call, GoogleUserInfo, GoogleAuthService, TokenResponse}
use cppbackend_api.Auth.Google.{
  GoogleLoginRequest, state_key, bad_state, cached_verifier, effective_verifier, exchange, identify,
  admit_identified, login_with_google, get_google_auth_url, final_state,
}
use cppbackend_api.Auth.Google.Frames.{admit_identified-cache}

module _ (key : String) (now : ℕ) where
  find_first-removed :
      (rows : List CacheEntry)
      → find_first (is_live key now) (select (λ r. not (str_eq r.key key)) rows) ≡ none
  find_first-removed [] = refl
  find_first-removed (r ∷ rows) = ground (arith, find_first-removed rows)

-- After a removal that commits, nothing is found under the key.
get_cached-removed :
    (o : Outcome) (now : ℕ) (db : Db) (key : String)
    → get_cached o now (remove_cached commits db key).1 key ≡ none
unfolding get_cached remove_cached
get_cached-removed o now db key = ground (arith, find_first-removed key now db.cache)

get_cached-cong :
    (o : Outcome) (now : ℕ) (db db' : Db) (key : String)
    → db'.cache ≡ db.cache
    → get_cached o now db' key ≡ get_cached o now db key
unfolding get_cached
get_cached-cong o now db db' key same = rw same

cached_verifier-spent :
    (c c2 : Call) (db : Db) (state : String)
    → c.outcome 1 ≡ commits
    → is_ok (cached_verifier c db state).0 ≡ true
    → get_cached (c2.outcome 0) c2.now (cached_verifier c db state).1 (state_key state) ≡ none
unfolding cached_verifier
cached_verifier-spent c c2 db state commit h =
    elim (Option-cases (get_cached (c.outcome 0) c.now db (state_key state))) [
      | inl e ↦ absurd (ground arith)
      | inr (entry, e) ↦
          ground (arith, get_cached-removed (c2.outcome 0) c2.now db (state_key state))
    ]

refused_without_entry :
    (svc : Services) (google : GoogleAuthService) (c : Call) (db : Db) (req : GoogleLoginRequest)
    → get_cached (c.outcome 0) c.now db (state_key req.state) ≡ none
    → (admit_identified svc c req (exchange google req (cached_verifier c db req.state))).0
      ≡ err bad_state
unfolding cached_verifier exchange admit_identified
refused_without_entry svc google c db req gone = ground arith

module _ (svc : Services) (google : GoogleAuthService) (c c2 : Call) (db : Db)
    (req : GoogleLoginRequest) (enabled : svc.google ≡ some google) (cached : svc.has_cache ≡ true)
    (no_token : is_empty req.id_token ≡ true) (code : is_empty req.code ≡ false)
    (no_verifier : is_empty req.code_verifier ≡ true) (state : is_empty req.state ≡ false) where
  login_with_google-by_state :
      (c' : Call) (db' : Db)
      → login_with_google svc c' db' req
        ≡ admit_identified svc c' req (exchange google req (cached_verifier c' db' req.state))
  unfolding login_with_google identify effective_verifier
  login_with_google-by_state c' db' = ground arith

  exchange-db : (v : Result String × Db) → (exchange google req v).1 ≡ v.1
  unfolding exchange
  exchange-db (ok v, db') = refl
  exchange-db (err e, db') = refl

  -- A PKCE state serves one login. Where a callback with a code and a state (no verifier of its own)
  -- found its verifier in the cache and the removal committed, the same callback is refused for its
  -- state afterwards, at any instant and whatever came of the first.
  pub google_state_single_use :
      c.outcome 1 ≡ commits
      → is_ok (cached_verifier c db req.state).0 ≡ true
      → (login_with_google svc c2 (login_with_google svc c db req).1 req).0 ≡ err bad_state
  google_state_single_use commit found =
      let first : Db = (login_with_google svc c db req).1 in
      let spent : Db = (cached_verifier c db req.state).1 in
      let known : Result GoogleUserInfo × Db =
        exchange google req (cached_verifier c db req.state) in
      let same : first.cache ≡ spent.cache =
        ap (λ (p : Result (ApiResponse TokenResponse) × Db). p.1.cache)
          (login_with_google-by_state c db)
        ∙ admit_identified-cache svc c req known.0 known.1
        ∙ ap (λ (d : Db). d.cache) (exchange-db (cached_verifier c db req.state)) in
      let gone : get_cached (c2.outcome 0) c2.now first (state_key req.state) ≡ none =
        get_cached-cong (c2.outcome 0) c2.now spent first (state_key req.state) same
        ∙ cached_verifier-spent c c2 db req.state commit found in
      ap (λ (p : Result (ApiResponse TokenResponse) × Db). p.0)
        (login_with_google-by_state c2 first)
      ∙ refused_without_entry svc google c2 first req gone

find_first-appended :
    (key : String) (now : ℕ) (rows : List CacheEntry) (x : CacheEntry)
    → any (λ r. str_eq r.key key) rows ≡ false
    → is_live key now x ≡ true
    → find_first (is_live key now) (rows ++ x ∷ []) ≡ some x
find_first-appended key now [] x h live = ground arith
find_first-appended key now (r ∷ rows) x h live = ground (arith, find_first-appended key now rows x)

abbrev value_of : Option CacheEntry → Option String
value_of none = none
value_of (some e) = some e.value

find_first-overwritten :
    (key value : String) (ttl now later : ℕ) (rows : List CacheEntry)
    → any (λ r. str_eq r.key key) rows ≡ true
    → later < now + ttl
    → value_of (
        find_first
          (is_live key later)
          (update_where (λ r. str_eq r.key key) (overwritten value ttl now) rows))
      ≡ some value
find_first-overwritten key value ttl now later [] h early = cc
find_first-overwritten key value ttl now later (r ∷ rows) h early =
    ground (arith, find_first-overwritten key value ttl now later rows)

-- What was cached is read back until its time to live is over.
get_cached-set_cached :
    (now later : ℕ) (db : Db) (key value : String) (ttl : ℕ)
    → later < now + ttl
    → value_of (get_cached commits later (set_cached commits now db key value ttl) key) ≡ some value
unfolding get_cached set_cached
get_cached-set_cached now later db key value ttl early =
    elim (Bool-cases (any (λ r. str_eq r.key key) db.cache)) [
      | inl e ↦
          simp e (ground (arith, find_first-overwritten key value ttl now later db.cache e early))
      | inr e ↦
          let entry : CacheEntry = record {
            key = key;
            value = value;
            ttl_seconds = ttl;
            created_at = now;
            expires_at = now + ttl;
          } in
          let live : is_live key later entry ≡ true = ground (arith, eq_refl key) in
          simp (e, find_first-appended key later db.cache entry e live)
    ]

cached_verifier-value :
    (c : Call) (db : Db) (state value : String)
    → value_of (get_cached (c.outcome 0) c.now db (state_key state)) ≡ some value
    → (cached_verifier c db state).0 ≡ ok value
unfolding cached_verifier get_cached
cached_verifier-value c db state value h = ground arith

-- The verifier that an authorization URL was made for is the one that a callback with its state
-- resolves, for ten minutes: where the write and the read commit and no other request has touched
-- the cache.
pub google_state_round_trip :
    (svc : Services) (google : GoogleAuthService) (c c2 : Call) (db : Db) (state : String)
    → svc.google ≡ some google
    → svc.has_cache ≡ true
    → c.outcome 0 ≡ commits
    → c2.outcome 0 ≡ commits
    → c2.now < c.now + 600
    → (cached_verifier c2 (get_google_auth_url svc c db state).1 (final_state c state)).0
      ≡ ok c.drawn_verifier
unfolding get_google_auth_url
google_state_round_trip svc google c c2 db state enabled cached write read early =
    rw (enabled, cached, write)
      (cached_verifier-value c2 _ (final_state c state) c.drawn_verifier (
        rw read (
          get_cached-set_cached c.now c2.now db (state_key (final_state c state)) c.drawn_verifier
            600 early)))
