-- ===== src/Prelude/Ints.antt =====
-- Signed counters, under the library's constructor names: `negsuc n` is -(n + 1).
use Prim.Native.Nat.{ℕ, zero, suc}
use mathlib.Core.Bool.{Bool, true, false}

pub data ℤ : Type 0 where
  pos : ℕ → ℤ
  negsuc : ℕ → ℤ

-- `n++`
unfoldable pub incr : ℤ → ℤ
incr (pos n) = pos (suc n)
incr (negsuc zero) = pos zero
incr (negsuc (suc n)) = negsuc n

-- `n--`
unfoldable pub decr : ℤ → ℤ
decr (pos zero) = negsuc zero
decr (pos (suc n)) = pos n
decr (negsuc n) = negsuc (suc n)

-- `n > 0`
unfoldable pub positive : ℤ → Bool
positive (pos (suc n)) = true
positive _ = false

-- `n == 0`
unfoldable pub is_zero : ℤ → Bool
is_zero (pos zero) = true
is_zero _ = false
