-- ===== src/Bits/Step.antt =====
-- One binary digit of `&` and `|`, from the recursion that the native operations stand for.
use Prim.Native.Nat.{digits, bitwise, bit_and-bitwise, bit_or-bitwise}
use stm32_rtos.Base.{ℕ, zero, suc, ◌+◌, ◌*◌, ◌/◌, ◌%◌, ◌≤◌, min, max, bit_and, bit_or}
use stm32_rtos.Base.{◌≡◌, refl, arith}

-- Any fuel from the first number up gives the same digits.
enough : (z : ℕ → ℕ) (f : ℕ → ℕ → ℕ) (k a b : ℕ) → a ≤ k → digits z f k a b ≡ bitwise z f a b
enough z f k a b h = two_fuels k a a b h (omega arith)
  where
    two_fuels : (k l a b : ℕ) → a ≤ k → a ≤ l → digits z f k a b ≡ digits z f l a b
    two_fuels zero zero a b p q = refl
    two_fuels zero (suc l) zero b p q = refl
    two_fuels zero (suc l) (suc a) b p q = absurd (omega arith)
    two_fuels (suc k) zero zero b p q = refl
    two_fuels (suc k) zero (suc a) b p q = absurd (omega arith)
    two_fuels (suc k) (suc l) zero b p q = refl
    two_fuels (suc k) (suc l) (suc a) b p q =
        rw (two_fuels k l (suc a / 2) (b / 2) (omega arith) (omega arith))

pub bit_and_step : (a b : ℕ) → bit_and a b ≡ bit_and (a / 2) (b / 2) * 2 + min (a % 2) (b % 2)
bit_and_step zero b = omega (arith, bit_and-bitwise 0 b, bit_and-bitwise 0 (b / 2))
bit_and_step (suc a) b = omega (
  arith,
  bit_and-bitwise (suc a) b,
  bit_and-bitwise (suc a / 2) (b / 2),
  enough (λ b. zero) min a (suc a / 2) (b / 2) (omega arith),
)

pub bit_or_step : (a b : ℕ) → bit_or a b ≡ bit_or (a / 2) (b / 2) * 2 + max (a % 2) (b % 2)
bit_or_step zero b = omega (arith, bit_or-bitwise 0 b, bit_or-bitwise 0 (b / 2))
bit_or_step (suc a) b = omega (
  arith,
  bit_or-bitwise (suc a) b,
  bit_or-bitwise (suc a / 2) (b / 2),
  enough (λ b. b) max a (suc a / 2) (b / 2) (omega arith),
)
