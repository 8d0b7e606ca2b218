-- ===== src/GoogleClient/Unsigned.antt =====
-- What verifyIdToken does with a token whose signature nobody has checked.
use cppbackend_api.Base.{
  ℕ, suc, ◌+◌, ◌-◌, ◌≡◌, refl, sym, ap, ◌∙◌, true, false, not, ◌&&◌, none, some, List, [], ◌∷◌,
  ◌++◌, arith, ◌==◌, ==_iff, All, length, is_nil, substr, free_of,
}
use cppbackend_api.Crypto.{base64_url_encode}
use cppbackend_api.Crypto.Hex.{IsByte}
use cppbackend_api.Crypto.Base64.{base64_url_decode-encode}
use cppbackend_api.Jwt.Signed.{token_of, middle, first_dot, append_assoc}
use cppbackend_api.GoogleClient.{
  GoogleClient, rfind_at, is_live_answer, is_test_token, verify_id_token, verify_offline,
  decode_payload, parse_and_validate_token_claims,
}

rfind_at-free : (c at : ℕ) (bs : List ℕ) → free_of c bs ≡ true → rfind_at c at bs ≡ none
rfind_at-free c at [] h = refl
rfind_at-free c at (b ∷ bs) h = ground (arith, rfind_at-free c (suc at) bs)

rfind_at-found :
    (c at : ℕ) (before after : List ℕ)
    → free_of c after ≡ true
    → rfind_at c at (before ++ c ∷ after) ≡ some (at + length before)
rfind_at-found c at [] after h =
    rw (rfind_at-free c (suc at) after h)
      (let e : at ≡ at + 0 = omega arith in rw ((==_iff c c).1 refl) (ap some e))
rfind_at-found c at (b ∷ before) after h =
    let e : suc at + length before ≡ at + suc (length before) = omega arith in
    rw (rfind_at-found c (suc at) before after h) (ap some e)

token_of-ne-nil : (h p s : List ℕ) → is_nil (token_of h p s) ≡ false
token_of-ne-nil [] p s = refl
token_of-ne-nil (x ∷ h) p s = refl

length-front : (h p : List ℕ) → length (h ++ b'.' ∷ p) ≡ length h + 1 + length p
length-front [] p = omega arith
length-front (x ∷ h) p = omega (arith, length-front h p)

last_dot :
    (h p s : List ℕ)
    → free_of b'.' s ≡ true
    → rfind_at b'.' 0 (token_of h p s) ≡ some (length h + 1 + length p)
last_dot h p s free =
    ap (rfind_at b'.' 0) (sym (append_assoc h (b'.' ∷ p) (b'.' ∷ s)))
    ∙ (rfind_at-found b'.' 0 (h ++ b'.' ∷ p) s free ∙ ap some (omega (arith, length-front h p)))

verify_offline-payload :
    (svc : GoogleClient) (now : ℕ) (h p s : List ℕ)
    → free_of b'.' h ≡ true
    → free_of b'.' s ≡ true
    → verify_offline svc now (token_of h p s) ≡ decode_payload svc now p
unfolding verify_offline
verify_offline-payload svc now h p s h_free s_free =
    let apart : (length h == length h + 1 + length p) ≡ false = ground arith in
    let width : length h + 1 + length p - length h - 1 ≡ length h + 1 + length p - (length h + 1) =
      omega arith in
    rw (first_dot h p s h_free, verify_offline)
      (rw (last_dot h p s s_free, verify_offline)
        (rw apart (
          ap (λ (n : ℕ). decode_payload svc now (substr (length h + 1) n (token_of h p s))) width
          ∙ ap (decode_payload svc now) (middle h p s))))

-- Where the token contains "mock-" or "test-", or Google's answer about it is no JSON with a
-- subject and an email, the signature plays no part: for every header and every signature without
-- a dot, the token counts as its claims alone.
pub verify_id_token-unsigned :
    (svc : GoogleClient) (now : ℕ) (header signature claims : List ℕ)
    → free_of b'.' header ≡ true
    → free_of b'.' signature ≡ true
    → All IsByte claims
    → (not (is_test_token (token_of header (base64_url_encode claims) signature))
        && is_live_answer svc.primitives
            (svc.https_get (token_of header (base64_url_encode claims) signature)))
      ≡ false
    → verify_id_token svc now (token_of header (base64_url_encode claims) signature)
      ≡ parse_and_validate_token_claims svc now claims
unfolding verify_id_token decode_payload
verify_id_token-unsigned svc now header signature claims h_free s_free in_bytes no_answer =
    rw (token_of-ne-nil header (base64_url_encode claims) signature) (
      rw no_answer (
        verify_offline-payload svc now header (base64_url_encode claims) signature h_free s_free
        ∙ rw (base64_url_decode-encode claims in_bytes, decode_payload) refl))
