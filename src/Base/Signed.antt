-- ===== src/Base/Signed.antt =====
-- int64_t values that stay in range, as integers.
use Prim.Native.Nat.{ℕ}
use mathlib.Core.Bool.{Bool, false}
use cppbackend_api.Base.Tests.{leb}

-- `negsuc n` is -(n + 1).
pub data ℤ : Type 0 where
  pos : ℕ → ℤ
  negsuc : ℕ → ℤ

-- n <= z for a number that is not negative.
abbrev pub at_least : ℕ → ℤ → Bool
at_least n (pos m) = leb n m
at_least n (negsuc m) = false
