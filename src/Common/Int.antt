-- ===== src/Common/Int.antt =====
-- Go's signed numbers, where a negative value takes another branch than 0.
use Prim.Native.Nat.{ℕ}
use mathlib.Core.Bool.{Bool, true, false}
use podman_api.Common.Tests.{ltb}

-- `negsuc n` is -(n + 1).
pub data ℤ : Type 0 where
  pos : ℕ → ℤ
  negsuc : ℕ → ℤ

-- `n < 0`.
abbrev pub is_negative : ℤ → Bool
is_negative (pos n) = false
is_negative (negsuc n) = true

-- `n > bound`.
abbrev pub is_above : ℕ → ℤ → Bool
is_above bound (pos n) = ltb bound n
is_above bound (negsuc n) = false

-- The value, where it is not negative.
abbrev pub magnitude : ℤ → ℕ
magnitude (pos n) = n
magnitude (negsuc n) = 0
