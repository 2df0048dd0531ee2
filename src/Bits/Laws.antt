-- ===== src/Bits/Laws.antt =====
-- Laws of the bit operations at variables, each proved digit by digit.
use native.Mathlib.Nat.{pow-suc, one-le-pow}
use stm32_rtos.Base.{
  lt_or_ge, ℕ, zero, suc, ◌+◌, ◌-◌, ◌/◌, ◌^◌, ◌≤◌, ◌<◌, min, bit_and, bit_or, ◌≡◌, inl, inr, arith,
  ◌%◌,
}
use stm32_rtos.Bits.Step.{bit_and_step, bit_or_step}
use stm32_rtos.Bits.Digit.{
  digit, digit-le-one, zero-digit, digit-bit_and, digit-bit_or, digit_above, digit_complement,
}
use stm32_rtos.Bits.Ops.{IsWord, inv32}

-- Equality of numbers of any size, digit by digit.
below_ext : (k a b : ℕ) → a ≤ k → b ≤ k → ((i : ℕ) → digit a i ≡ digit b i) → a ≡ b
below_ext zero a b ha hb h = omega arith
below_ext (suc k) a b ha hb h =
    omega (arith, h 0, below_ext k (a / 2) (b / 2) (omega arith) (omega arith) (λ i. h (suc i)))

pub digit_ext : (a b : ℕ) → ((i : ℕ) → digit a i ≡ digit b i) → a ≡ b
digit_ext a b h = below_ext (a + b) a b (omega arith) (omega arith) h

-- Bounds.
pub bit_and-lt : (k a b : ℕ) → a < 2 ^ k → bit_and a b < 2 ^ k
bit_and-lt zero a b h =
    let none_left : a ≡ 0 = omega arith in
    rw none_left (omega (arith, bit_and_step 0 b, zero_and b))
  where
    zero_and : (b : ℕ) → bit_and 0 b ≡ 0
    zero_and b = digit_ext _ _ (λ i. omega (arith, digit-bit_and 0 b i, zero-digit i))
bit_and-lt (suc k) a b h = omega (
  arith,
  bit_and_step a b,
  pow-suc 2 k,
  bit_and-lt k (a / 2) (b / 2) (omega (arith, pow-suc 2 k)),
)

pub bit_or-lt : (k a b : ℕ) → a < 2 ^ k → b < 2 ^ k → bit_or a b < 2 ^ k
bit_or-lt zero a b p q =
    let e : a ≡ 0 = omega arith in let e' : b ≡ 0 = omega arith in rw (e, e') (omega arith)
bit_or-lt (suc k) a b p q = omega (
  arith,
  bit_or_step a b,
  pow-suc 2 k,
  bit_or-lt k (a / 2) (b / 2) (omega (arith, pow-suc 2 k)) (omega (arith, pow-suc 2 k)),
)

-- Digits of a complement: within the word and above it.
digit-inv32 : (a i : ℕ) → IsWord a → i < 32 → digit (inv32 a) i ≡ 1 - digit a i
digit-inv32 a i h lt = digit_complement 32 a i h lt

-- Boolean algebra.
pub bit_and_comm : (a b : ℕ) → bit_and a b ≡ bit_and b a
bit_and_comm a b = digit_ext _ _ (λ i. omega (arith, digit-bit_and a b i, digit-bit_and b a i))

pub bit_and_assoc : (a b c : ℕ) → bit_and (bit_and a b) c ≡ bit_and a (bit_and b c)
bit_and_assoc a b c = digit_ext _ _ λ i. omega (
  arith,
  digit-bit_and (bit_and a b) c i,
  digit-bit_and a b i,
  digit-bit_and a (bit_and b c) i,
  digit-bit_and b c i,
)

pub or-and_distrib : (a b m : ℕ) → bit_and (bit_or a b) m ≡ bit_or (bit_and a m) (bit_and b m)
or-and_distrib a b m = digit_ext _ _ λ i. omega (
  arith,
  digit-bit_and (bit_or a b) m i,
  digit-bit_or a b i,
  digit-bit_or (bit_and a m) (bit_and b m) i,
  digit-bit_and a m i,
  digit-bit_and b m i,
)

pub bit_or_assoc : (a b c : ℕ) → bit_or (bit_or a b) c ≡ bit_or a (bit_or b c)
bit_or_assoc a b c = digit_ext _ _ λ i. omega (
  arith,
  digit-bit_or (bit_or a b) c i,
  digit-bit_or a b i,
  digit-bit_or a (bit_or b c) i,
  digit-bit_or b c i,
)

pub bit_or-zero : (a : ℕ) → bit_or a 0 ≡ a
bit_or-zero a = digit_ext _ _ (λ i. omega (arith, digit-bit_or a 0 i, zero-digit i))

pub zero-bit_or : (a : ℕ) → bit_or 0 a ≡ a
zero-bit_or a = digit_ext _ _ (λ i. omega (arith, digit-bit_or 0 a i, zero-digit i))

pub zero-bit_and : (a : ℕ) → bit_and 0 a ≡ 0
zero-bit_and a = digit_ext _ _ (λ i. omega (arith, digit-bit_and 0 a i, zero-digit i))

-- What `~m` removes, and what it keeps.
pub and-inv32_self : (r m : ℕ) → IsWord m → bit_and (bit_and r (inv32 m)) m ≡ 0
and-inv32_self r m h = digit_ext _ _ λ i. elim (lt_or_ge i 32) [
  | inl lt ↦ omega (
    arith,
    digit-bit_and (bit_and r (inv32 m)) m i,
    digit-bit_and r (inv32 m) i,
    digit-inv32 m i h lt,
    digit-le-one m i,
    zero-digit i,
  )
  | inr ge ↦
      omega (arith, digit-bit_and (bit_and r (inv32 m)) m i, digit_above 32 m i h ge, zero-digit i)
]

pub and-inv32_disjoint :
    (r m n : ℕ)
    → IsWord m
    → IsWord n
    → bit_and m n ≡ 0
    → bit_and (bit_and r (inv32 m)) n ≡ bit_and r n
and-inv32_disjoint r m n hm hn apart = digit_ext _ _ λ i.
    let clash : min (digit m i) (digit n i) ≡ 0 = rw (← digit-bit_and) (rw apart (zero-digit i)) in
    elim (lt_or_ge i 32) [
      | inl lt ↦ omega (
        arith,
        digit-bit_and (bit_and r (inv32 m)) n i,
        digit-bit_and r (inv32 m) i,
        digit-bit_and r n i,
        digit-inv32 m i hm lt,
        digit-le-one m i,
        digit-le-one n i,
        digit-le-one r i,
      )
      | inr ge ↦ omega (
        arith,
        digit-bit_and (bit_and r (inv32 m)) n i,
        digit-bit_and r n i,
        digit_above 32 n i hn ge,
      )
    ]

pub or-and_self : (r b : ℕ) → bit_and (bit_or r b) b ≡ b
or-and_self r b =
    digit_ext _ _ λ i. omega (arith, digit-bit_and (bit_or r b) b i, digit-bit_or r b i)

-- A number below `2 ^ w` is its own part under `w` ones.
ones-digit : (w i : ℕ) → i < w → digit (2 ^ w - 1) i ≡ 1
ones-digit zero i h = absurd (omega arith)
ones-digit (suc w) zero h = omega (arith, pow-suc 2 w, one-le-pow w 2)
ones-digit (suc w) (suc i) h =
    let half : (2 ^ suc w - 1) / 2 ≡ 2 ^ w - 1 = omega (arith, pow-suc 2 w, one-le-pow w 2) in
    rw half (ones-digit w i (omega arith))

pub bit_and-ones : (w v : ℕ) → v < 2 ^ w → bit_and v (2 ^ w - 1) ≡ v
bit_and-ones w v h = digit_ext _ _ λ i. elim (lt_or_ge i w) [
  | inl lt ↦ omega (arith, digit-bit_and v (2 ^ w - 1) i, ones-digit w i lt, digit-le-one v i)
  | inr ge ↦ omega (arith, digit-bit_and v (2 ^ w - 1) i, digit_above w v i h ge)
]

-- Nothing outside a mask: all of it is within.
pub within_of_outside : (d m : ℕ) → IsWord d → IsWord m → bit_and d (inv32 m) ≡ 0 → bit_and d m ≡ d
within_of_outside d m hd hm none_out = digit_ext _ _ λ i.
    let out : min (digit d i) (digit (inv32 m) i) ≡ 0 =
      rw (← digit-bit_and) (rw none_out (zero-digit i)) in
    elim (lt_or_ge i 32) [
      | inl lt ↦
          omega
            (arith, digit-bit_and d m i, digit-inv32 m i hm lt, digit-le-one m i, digit-le-one d i)
      | inr ge ↦ omega (arith, digit-bit_and d m i, digit_above 32 d i hd ge)
    ]

-- The lowest hexadecimal digit.
pub bit_and-fifteen : (x : ℕ) → bit_and x 15 ≡ x % 16
bit_and-fifteen x = omega (
  arith,
  bit_and_step x 15,
  bit_and_step (x / 2) 7,
  bit_and_step (x / 2 / 2) 3,
  bit_and_step (x / 2 / 2 / 2) 1,
  bit_and_comm (x / 2 / 2 / 2 / 2) 0,
  zero-bit_and (x / 2 / 2 / 2 / 2),
)
