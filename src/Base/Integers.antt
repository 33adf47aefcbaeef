-- ===== src/Base/Integers.antt =====
-- The integers over the native numbers, for counters that may fall below 0.
use Prim.Native.Nat.{ℕ, zero, suc}

pub data ℤ : Type 0 where
  pos negsuc : ℕ → ℤ

unfoldable pub decrement : ℤ → ℤ
decrement (pos zero) = negsuc 0
decrement (pos (suc n)) = pos n
decrement (negsuc n) = negsuc (suc n)

unfoldable pub increment : ℤ → ℤ
increment (pos n) = pos (suc n)
increment (negsuc zero) = pos 0
increment (negsuc (suc n)) = negsuc n
