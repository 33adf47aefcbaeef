-- ===== src/Base/Reads.antt =====
-- Rules for code that checks a length and then reads: it returns, whatever the bytes are.
use Prim.Native.Nat.{ℕ, ◌+◌, ◌≤◌}
use mathlib.Core.Logic.{inl, inr}
use mathlib.Core.List.{List}
use native.Mathlib.Omega.{arith}
use gb32960_go_sdk.Base.Tests.{ltb, if◌then◌else◌, Bool-cases}
use gb32960_go_sdk.Base.Lists.{length}
use gb32960_go_sdk.Base.Outcome.{Result, ◌>>=◌, Returns, >>=-Returns}
use gb32960_go_sdk.Base.Bytes.{index, uint16_at, uint32_at, index_lt, uint16_at_le, uint32_at_le}

-- A length check in front of the reads.
pub checked {ℓ} :
    {B : Type ℓ} (a n : ℕ) (e r : Result B)
    → Returns e
    → (n ≤ a → Returns r)
    → Returns (if ltb a n then e else r)
checked a n e r he h = elim (Bool-cases (ltb a n)) [
  | inl short ↦ rw short he
  | inr long ↦ rw long (h (ground arith))
]

-- Reads in a row: each read is within the bytes, and the rest returns whatever it gave.
module _ {ℓ} {B : Type ℓ} (input : List ℕ) where
  pub read_then :
      (pos : ℕ) (f : ℕ → Result B)
      → pos + 1 ≤ length input
      → ((b : ℕ) → Returns (f b))
      → Returns (index input pos >>= f)
  read_then pos f h k =
      >>=-Returns (index input pos) f (index_lt input pos (omega arith)) (λ b _. k b)

  pub read16_then :
      (pos : ℕ) (f : ℕ → Result B)
      → pos + 2 ≤ length input
      → ((b : ℕ) → Returns (f b))
      → Returns (uint16_at input pos >>= f)
  read16_then pos f h k =
      >>=-Returns (uint16_at input pos) f (uint16_at_le input pos h) (λ b _. k b)

  pub read32_then :
      (pos : ℕ) (f : ℕ → Result B)
      → pos + 4 ≤ length input
      → ((b : ℕ) → Returns (f b))
      → Returns (uint32_at input pos >>= f)
  read32_then pos f h k =
      >>=-Returns (uint32_at input pos) f (uint32_at_le input pos h) (λ b _. k b)
