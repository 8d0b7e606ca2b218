-- ===== src/Domain/Result.antt =====
-- Domain/Common/Result.h and ValidationError.h, and Application/Common/ApiResponse.h.
use cppbackend_api.Base.{
  ℕ, ◌≡◌, ◌⊎◌, inl, inr, refl, Bool, true, false, Option, none, some, List, [], String,
}

pub record DomainError : Type 0 where
  pub message : String
  pub status_code : ℕ
  pub details : List String

pub data Result {ℓ} (A : Type ℓ) : Type ℓ where
  ok : A → Result A
  err : DomainError → Result A

abbrev pub is_ok {ℓ} : {A : Type ℓ} → Result A → Bool
is_ok (ok a) = true
is_ok (err e) = false

-- The error of a given status, with one detail.
abbrev pub fail_with : ℕ → String → String → DomainError
fail_with code message detail = record {
  message = message;
  status_code = code;
  details = List.◌∷◌ detail [];
}

-- `data` of the source is `payload` here; the timestamp is the instant of the response.
pub record ApiResponse {ℓ} (A : Type ℓ) : Type ℓ where
  pub success : Bool
  pub status_code : ℕ
  pub message : String
  pub payload : Option A
  pub errors : List String
  pub timestamp : ℕ

module _ {ℓ} {A : Type ℓ} where
  -- ApiResponse::ok with its code.
  abbrev pub respond : A → String → ℕ → ℕ → ApiResponse A
  respond a message code now = record {
    success = true;
    status_code = code;
    message = message;
    payload = some a;
    errors = [];
    timestamp = now;
  }

  -- ApiResponse::created.
  abbrev pub created : A → String → ℕ → ApiResponse A
  created a message now = respond a message 201 now

-- ApiResponse<void>::ok with its code.
abbrev pub respond_void : String → ℕ → ℕ → ApiResponse (Unit {0})
respond_void message code now = record {
  success = true;
  status_code = code;
  message = message;
  payload = none;
  errors = [];
  timestamp = now;
}

pub Result-cases {ℓ} :
    {A : Type ℓ} (r : Result A) → ((a : A) × (r ≡ ok a)) ⊎ ((e : DomainError) × (r ≡ err e))
Result-cases (ok a) = inl (a, refl)
Result-cases (err e) = inr (e, refl)
