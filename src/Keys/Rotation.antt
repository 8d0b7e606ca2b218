-- ===== src/Keys/Rotation.antt =====
-- How long a key stays usable for verification.
use mathlib.Core.Path.{subst}
use cppbackend_api.Base.{
  ℕ, suc, ◌+◌, ◌≤◌, ◌<◌, ◌≡◌, refl, ap, ◌∙◌, Bool, true, false, not, ◌&&◌, inl, inr, some, List, [],
  ◌∷◌, ◌++◌, String, str_eq, eq_refl, arith, ltb, length, length-append, find_first, any,
  Bool-cases,
}
use cppbackend_api.Keys.{
  SigningKey, KeyManager, NewKey, kid_of, drop_oldest, capped, rotate_key, has_kid,
  get_verification_public_key_pem,
}

-- So many rotations, the first first.
abbrev pub rotate_all : (String → String × String) → KeyManager → List NewKey → KeyManager
rotate_all extract_params km [] = km
rotate_all extract_params km (given ∷ rest) =
    rotate_all extract_params (rotate_key extract_params km given) rest

-- A key stands among the earlier ones with so many younger ones, none older having its kid.
pub record Kept (k : SigningKey) (younger : ℕ) (ks : List SigningKey) : Type 0 where
  pub older : List SigningKey
  pub newer : List SigningKey
  pub parts : ks ≡ older ++ k ∷ newer
  pub unused : any (has_kid k.kid) older ≡ false
  pub count : length newer ≡ younger
  pub few : length ks ≤ 5

find_first-kept :
    (k : SigningKey) (older newer : List SigningKey)
    → any (has_kid k.kid) older ≡ false
    → find_first (has_kid k.kid) (older ++ k ∷ newer) ≡ some k
find_first-kept k [] newer h = ground (arith, eq_refl k.kid)
find_first-kept k (x ∷ older) newer h = ground (arith, find_first-kept k older newer)

append_cons :
    (k x : SigningKey) (older newer : List SigningKey)
    → (older ++ k ∷ newer) ++ x ∷ [] ≡ older ++ k ∷ (newer ++ x ∷ [])
append_cons k x [] newer = refl
append_cons k x (y ∷ older) newer =
    ap (λ (ks : List SigningKey). y ∷ ks) (append_cons k x older newer)

length-kept :
    (k : SigningKey) (older newer : List SigningKey)
    → length (older ++ k ∷ newer) ≡ length older + length newer + 1
length-kept k older newer = omega (arith, length-append older (k ∷ newer))

capped-few : (ks : List SigningKey) → length ks ≤ 5 → capped ks ≡ ks
capped-few ks few = ground arith

capped-many : (ks : List SigningKey) → 5 < length ks → capped ks ≡ drop_oldest ks
capped-many ks many = ground arith

-- One more key after it: the key stays, unless it is the oldest of five.
capped-Kept :
    (k : SigningKey) (older newer : List SigningKey)
    → any (has_kid k.kid) older ≡ false
    → length newer ≤ 4
    → length older + length newer ≤ 5
    → Kept k (length newer) (capped (older ++ k ∷ newer))
capped-Kept k [] newer unused early few =
    let total : length (k ∷ newer) ≤ 5 = omega (arith, early) in
    rw (capped-few (k ∷ newer) total)
      (record { older = []; newer = newer; parts = refl; unused = refl; count = refl; few = total })
capped-Kept k (y ∷ older) newer unused early few =
    let total = length-kept k (y ∷ older) newer in
    let rest : any (has_kid k.kid) older ≡ false = ground (arith, unused) in
    elim (Bool-cases (ltb 5 (length (y ∷ (older ++ k ∷ newer))))) [
      | inl many ↦ rw (capped-many (y ∷ (older ++ k ∷ newer)) (ground (arith, many))) (record {
        older = older;
        newer = newer;
        parts = refl;
        unused = rest;
        count = refl;
        few = omega (arith, length-kept k older newer, few);
      })
      | inr under ↦ rw (capped-few (y ∷ (older ++ k ∷ newer)) (ground (arith, under))) (record {
        older = y ∷ older;
        newer = newer;
        parts = refl;
        unused = unused;
        count = refl;
        few = ground (arith, under);
      })
    ]

rotate_key-first :
    (extract_params : String → String × String) (km : KeyManager) (given : NewKey)
    → length km.previous_keys ≤ 5
    → any (has_kid km.active_key.kid) km.previous_keys ≡ false
    → Kept km.active_key 0 (rotate_key extract_params km given).previous_keys
unfolding rotate_key
rotate_key-first extract_params km given few unused =
    capped-Kept km.active_key km.previous_keys [] unused (omega arith) (omega (arith, few))

Kept-count : (k : SigningKey) (m n : ℕ) (ks : List SigningKey) → m ≡ n → Kept k m ks → Kept k n ks
Kept-count k m n ks e h = subst (λ (x : ℕ). Kept k x ks) e h

rotate_key-Kept :
    (extract_params : String → String × String) (km : KeyManager) (given : NewKey) (k : SigningKey)
    (younger : ℕ)
    → younger < 4
    → Kept k younger km.previous_keys
    → Kept k (suc younger) (rotate_key extract_params km given).previous_keys
unfolding rotate_key
rotate_key-Kept extract_params km given k younger early h =
    let x : SigningKey = km.active_key in
    let newer : List SigningKey = h.newer ++ x ∷ [] in
    let counted : length newer ≡ suc younger =
      omega (arith, length-append h.newer (x ∷ []), h.count) in
    let total : length h.older + length h.newer + 1 ≤ 5 =
      omega (arith, ap length h.parts, length-kept k h.older h.newer, h.few) in
    let same : km.previous_keys ++ x ∷ [] ≡ h.older ++ k ∷ newer =
      ap (λ (ks : List SigningKey). ks ++ x ∷ []) h.parts ∙ append_cons k x h.older h.newer in
    Kept-count k (length newer) (suc younger) _ counted (
      rw same (
        capped-Kept k h.older newer h.unused (omega (arith, counted, early))
          (omega (arith, counted, total, h.count))))

rotate_key-kid :
    (extract_params : String → String × String) (km : KeyManager) (given : NewKey)
    → (rotate_key extract_params km given).active_key.kid ≡ kid_of given
unfolding rotate_key
rotate_key-kid extract_params km given = refl

get_verification_public_key_pem-Kept :
    (km : KeyManager) (k : SigningKey) (younger : ℕ)
    → Kept k younger km.previous_keys
    → str_eq km.active_key.kid k.kid ≡ false
    → get_verification_public_key_pem km k.kid ≡ some k.public_key_pem
unfolding get_verification_public_key_pem
get_verification_public_key_pem-Kept km k younger h other =
    rw (other, h.parts, find_first-kept k h.older h.newer h.unused, get_verification_public_key_pem)

-- No rotation reuses a kid.
abbrev pub new_kids : String → List NewKey → Bool
new_kids kid [] = true
new_kids kid (given ∷ rest) = not (str_eq (kid_of given) kid) && new_kids kid rest

rotate_all-Kept :
    (extract_params : String → String × String) (km : KeyManager) (rest : List NewKey)
    (k : SigningKey) (younger : ℕ)
    → younger + length rest ≤ 4
    → Kept k younger km.previous_keys
    → str_eq km.active_key.kid k.kid ≡ false
    → new_kids k.kid rest ≡ true
    → (get_verification_public_key_pem (rotate_all extract_params km rest) k.kid
        ≡ some k.public_key_pem)
      × (length (rotate_all extract_params km rest).previous_keys ≤ 5)
rotate_all-Kept extract_params km [] k younger enough h other fresh =
    (get_verification_public_key_pem-Kept km k younger h other, h.few)
rotate_all-Kept extract_params km (given ∷ rest) k younger enough h other fresh =
    rotate_all-Kept extract_params (rotate_key extract_params km given) rest k (suc younger)
      (omega (arith, enough))
      (rotate_key-Kept extract_params km given k younger (omega (arith, enough)) h)
      (ground (arith, fresh, rotate_key-kid extract_params km given)) (ground (arith, fresh))

-- Tokens stay verifiable through five rotations: where the manager holds at most five earlier keys
-- and none of them has the active key's kid, and one to five rotations follow that do not reuse it,
-- the public key of that kid is still found, and at most five earlier keys are held.
pub active_key_survives :
    (extract_params : String → String × String) (km : KeyManager) (given : NewKey)
    (rest : List NewKey)
    → length km.previous_keys ≤ 5
    → any (has_kid km.active_key.kid) km.previous_keys ≡ false
    → new_kids km.active_key.kid (given ∷ rest) ≡ true
    → length rest ≤ 4
    → let after = rotate_all extract_params km (given ∷ rest) in
      (get_verification_public_key_pem after km.active_key.kid ≡ some km.active_key.public_key_pem)
      × (length after.previous_keys ≤ 5)
active_key_survives extract_params km given rest few unused fresh enough =
    rotate_all-Kept extract_params (rotate_key extract_params km given) rest km.active_key 0
      (omega (arith, enough)) (rotate_key-first extract_params km given few unused)
      (ground (arith, fresh, rotate_key-kid extract_params km given)) (ground (arith, fresh))
