-- ===== src/Common/Ints.antt =====
-- Signed C integers: return codes, and differences that may be negative.
use Prim.Native.Nat.{ℕ}
use mathlib.Core.Bool.{Bool, true, false}

-- `negsuc n` is -(n + 1).
pub data ℤ : Type 0 where
  pos : ℕ → ℤ
  negsuc : ℕ → ℤ

-- The test `ret < 0`.
abbrev pub is_neg : ℤ → Bool
is_neg (pos _) = false
is_neg (negsuc _) = true
