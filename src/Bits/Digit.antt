-- ===== src/Bits/Digit.antt =====
-- Binary digits of a number, and equality by digits.
use native.Mathlib.Nat.{pow-suc}
use stm32_rtos.Base.{
  ℕ, zero, suc, ◌-◌, ◌/◌, ◌%◌, ◌^◌, ◌≤◌, ◌<◌, min, max, bit_and, bit_or, ◌≡◌, refl, arith,
}
use stm32_rtos.Bits.Step.{bit_and_step, bit_or_step}

-- Digit `i` of `a`, 0 or 1.
abbrev pub digit : ℕ → ℕ → ℕ
digit a zero = a % 2
digit a (suc i) = digit (a / 2) i

pub digit-le-one : (a i : ℕ) → digit a i ≤ 1
digit-le-one a zero = omega arith
digit-le-one a (suc i) = digit-le-one (a / 2) i

pub zero-digit : (i : ℕ) → digit 0 i ≡ 0
zero-digit zero = refl
zero-digit (suc i) = zero-digit i

pub digit-bit_and : (a b i : ℕ) → digit (bit_and a b) i ≡ min (digit a i) (digit b i)
digit-bit_and a b zero = omega (arith, bit_and_step a b)
digit-bit_and a b (suc i) =
    let half : bit_and a b / 2 ≡ bit_and (a / 2) (b / 2) = omega (arith, bit_and_step a b) in
    rw half (digit-bit_and (a / 2) (b / 2) i)

pub digit-bit_or : (a b i : ℕ) → digit (bit_or a b) i ≡ max (digit a i) (digit b i)
digit-bit_or a b zero = omega (arith, bit_or_step a b)
digit-bit_or a b (suc i) =
    let half : bit_or a b / 2 ≡ bit_or (a / 2) (b / 2) = omega (arith, bit_or_step a b) in
    rw half (digit-bit_or (a / 2) (b / 2) i)

-- A number below `2 ^ k` has no digit from `k` up.
pub digit_above : (k a i : ℕ) → a < 2 ^ k → k ≤ i → digit a i ≡ 0
digit_above zero a i h le = let none_left : a ≡ 0 = omega arith in rw none_left (zero-digit i)
digit_above (suc k) a zero h le = absurd (omega arith)
digit_above (suc k) a (suc i) h le =
    digit_above k (a / 2) i (omega (arith, pow-suc 2 k)) (omega arith)

-- Two numbers below `2 ^ k` that agree on the `k` lowest digits are equal.
pub eq_of_digits :
    (k a b : ℕ) → a < 2 ^ k → b < 2 ^ k → ((i : ℕ) → i < k → digit a i ≡ digit b i) → a ≡ b
eq_of_digits zero a b ha hb h = omega arith
eq_of_digits (suc k) a b ha hb h = omega (
  arith,
  h 0 (omega arith),
  eq_of_digits k (a / 2) (b / 2) (omega (arith, pow-suc 2 k)) (omega (arith, pow-suc 2 k))
      (λ i lt. h (suc i) (omega arith)),
)

-- A complement within `k` digits turns each of them over.
pub digit_complement : (k a i : ℕ) → a < 2 ^ k → i < k → digit (2 ^ k - 1 - a) i ≡ 1 - digit a i
digit_complement zero a i ha lt = absurd (omega arith)
digit_complement (suc k) a zero ha lt = omega (arith, pow-suc 2 k)
digit_complement (suc k) a (suc i) ha lt =
    let half : (2 ^ suc k - 1 - a) / 2 ≡ 2 ^ k - 1 - a / 2 = omega (arith, pow-suc 2 k) in
    rw half (digit_complement k (a / 2) i (omega (arith, pow-suc 2 k)) (omega arith))
