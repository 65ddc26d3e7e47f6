-- ===== src/Common/Int.antt =====
-- Signed results (`int`, `long`, `ssize_t`): `negsuc n` is -(n + 1).
use Prim.Native.Nat.{ℕ}
use mathlib.Core.Bool.{Bool, true, false}
use cryptodev_chat.Common.Tests.{◌==◌}

pub data ℤ : Type 0 where
  pos : ℕ → ℤ
  negsuc : ℕ → ℤ

-- `x < 0`
abbrev pub is_neg : ℤ → Bool
is_neg (pos n) = false
is_neg (negsuc n) = true

-- `x == 0`, the C test `!x`
abbrev pub is_zero : ℤ → Bool
is_zero (pos n) = n == 0
is_zero (negsuc n) = false

-- `x == n` for a count `n`
abbrev pub is_count : ℤ → ℕ → Bool
is_count (pos m) n = m == n
is_count (negsuc m) n = false
