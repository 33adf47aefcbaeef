-- ===== src/Base/Bits.antt =====
-- Exclusive or at variables: the equation for the lowest digit, and the laws that follow from it.
use Prim.Native.Nat.{
  ℕ, zero, suc, ◌+◌, ◌*◌, ◌/◌, ◌%◌, ◌^◌, ◌≤◌, ◌<◌, bit_xor, digits, differ, bit_xor-bitwise,
}
use mathlib.Core.Path.{◌≡◌, refl, ap, sym, ◌∙◌}
use native.Mathlib.Omega.{arith}
use native.Mathlib.Nat.{pow-suc}

abbrev xor_digits : ℕ → ℕ → ℕ → ℕ
xor_digits n a b = digits (λ b. b) differ n a b

-- Any fuel from the first number on gives the same digits.
xor_digits_fuel : (n m a b : ℕ) → a ≤ n → a ≤ m → xor_digits n a b ≡ xor_digits m a b
xor_digits_fuel zero zero a b p q = refl
xor_digits_fuel zero (suc m) zero b p q = refl
xor_digits_fuel zero (suc m) (suc a) b p q = absurd (omega arith)
xor_digits_fuel (suc n) zero zero b p q = refl
xor_digits_fuel (suc n) zero (suc a) b p q = absurd (omega arith)
xor_digits_fuel (suc n) (suc m) zero b p q = refl
xor_digits_fuel (suc n) (suc m) (suc a) b p q =
    rw (xor_digits_fuel n m (suc a / 2) (b / 2) (omega arith) (omega arith))

pub zero-bit_xor : (b : ℕ) → bit_xor 0 b ≡ b
zero-bit_xor b = bit_xor-bitwise 0 b

differ_small : (x y : ℕ) → x < 2 → y < 2 → differ x y ≡ (x + y) % 2
differ_small zero y h k = omega arith
differ_small (suc zero) zero h k = omega arith
differ_small (suc zero) (suc zero) h k = omega arith
differ_small (suc zero) (suc (suc y)) h k = absurd (omega arith)
differ_small (suc (suc x)) y h k = absurd (omega arith)

differ_mod : (a b : ℕ) → differ (a % 2) (b % 2) ≡ (a + b) % 2
differ_mod a b = omega (arith, differ_small (a % 2) (b % 2) (omega arith) (omega arith))

pub bit_xor_step : (a b : ℕ) → bit_xor a b ≡ bit_xor (a / 2) (b / 2) * 2 + (a + b) % 2
bit_xor_step zero b = omega (arith, zero-bit_xor b, zero-bit_xor (b / 2))
bit_xor_step (suc a) b = omega (
  arith,
  bit_xor-bitwise (suc a) b,
  bit_xor-bitwise (suc a / 2) (b / 2),
  differ_mod (suc a) b,
  xor_digits_fuel a (suc a / 2) (suc a / 2) (b / 2) (omega arith) (omega arith),
)

-- The laws go from the halves to the numbers, hence the bound `n`.
bit_xor-zero_below : (n a : ℕ) → a ≤ n → bit_xor a 0 ≡ a
bit_xor-zero_below n zero h = zero-bit_xor 0
bit_xor-zero_below zero (suc a) h = absurd (omega arith)
bit_xor-zero_below (suc n) (suc a) h =
    omega (arith, bit_xor_step (suc a) 0, bit_xor-zero_below n (suc a / 2) (omega arith))

pub bit_xor-zero : (a : ℕ) → bit_xor a 0 ≡ a
bit_xor-zero a = bit_xor-zero_below a a (omega arith)

bit_xor_self_below : (n a : ℕ) → a ≤ n → bit_xor a a ≡ 0
bit_xor_self_below n zero h = zero-bit_xor 0
bit_xor_self_below zero (suc a) h = absurd (omega arith)
bit_xor_self_below (suc n) (suc a) h =
    omega (arith, bit_xor_step (suc a) (suc a), bit_xor_self_below n (suc a / 2) (omega arith))

pub bit_xor_self : (a : ℕ) → bit_xor a a ≡ 0
bit_xor_self a = bit_xor_self_below a a (omega arith)

bit_xor_comm_below : (n a b : ℕ) → a ≤ n → bit_xor a b ≡ bit_xor b a
bit_xor_comm_below n zero b h = zero-bit_xor b ∙ sym (bit_xor-zero b)
bit_xor_comm_below zero (suc a) b h = absurd (omega arith)
bit_xor_comm_below (suc n) (suc a) b h = omega (
  arith,
  bit_xor_step (suc a) b,
  bit_xor_step b (suc a),
  bit_xor_comm_below n (suc a / 2) (b / 2) (omega arith),
)

pub bit_xor_comm : (a b : ℕ) → bit_xor a b ≡ bit_xor b a
bit_xor_comm a b = bit_xor_comm_below a a b (omega arith)

-- The lowest digit and the half of a result.
bit_xor_half : (a b : ℕ) → bit_xor a b / 2 ≡ bit_xor (a / 2) (b / 2)
bit_xor_half a b = omega (arith, bit_xor_step a b)

bit_xor_digit : (a b : ℕ) → bit_xor a b % 2 ≡ (a + b) % 2
bit_xor_digit a b = omega (arith, bit_xor_step a b)

bit_xor_assoc_below : (n a b c : ℕ) → a ≤ n → bit_xor (bit_xor a b) c ≡ bit_xor a (bit_xor b c)
bit_xor_assoc_below n zero b c h =
    ap (λ (t : ℕ). bit_xor t c) (zero-bit_xor b) ∙ sym (zero-bit_xor (bit_xor b c))
bit_xor_assoc_below zero (suc a) b c h = absurd (omega arith)
bit_xor_assoc_below (suc n) (suc a) b c h =
    bit_xor_step (bit_xor (suc a) b) c
    ∙ rw (bit_xor_half (suc a) b) (
        omega (
          arith,
          bit_xor_assoc_below n (suc a / 2) (b / 2) (c / 2) (omega arith),
          bit_xor_digit (suc a) b,
          bit_xor_digit b c,
          rw (bit_xor_half b c) at (bit_xor_step (suc a) (bit_xor b c)),
        ))

pub bit_xor_assoc : (a b c : ℕ) → bit_xor (bit_xor a b) c ≡ bit_xor a (bit_xor b c)
bit_xor_assoc a b c = bit_xor_assoc_below a a b c (omega arith)

-- Applied twice, the same number cancels.
pub bit_xor_twice : (a b : ℕ) → bit_xor (bit_xor a b) b ≡ a
bit_xor_twice a b = bit_xor_assoc a b b ∙ ap (bit_xor a) (bit_xor_self b) ∙ bit_xor-zero a

pub bit_xor_cancel : (a b c : ℕ) → bit_xor a c ≡ bit_xor b c → a ≡ b
bit_xor_cancel a b c e = sym (bit_xor_twice a c) ∙ ap (λ (t : ℕ). bit_xor t c) e ∙ bit_xor_twice b c

bit_xor-lt_pow : (k a b : ℕ) → a < 2 ^ k → b < 2 ^ k → bit_xor a b < 2 ^ k
bit_xor-lt_pow zero a b h j =
    let ea : a ≡ 0 = omega arith in
    let eb : b ≡ 0 = omega arith in rw (ea, eb) (omega (arith, zero-bit_xor 0))
bit_xor-lt_pow (suc k) a b h j = omega (
  arith,
  pow-suc 2 k,
  bit_xor_step a b,
  bit_xor-lt_pow k (a / 2) (b / 2) (omega (arith, pow-suc 2 k)) (omega (arith, pow-suc 2 k)),
)

-- The exclusive or of two bytes is a byte.
pub bit_xor-byte : (a b : ℕ) → a < 256 → b < 256 → bit_xor a b < 256
bit_xor-byte a b h j = bit_xor-lt_pow 8 a b h j
