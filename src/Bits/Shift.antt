-- ===== src/Bits/Shift.antt =====
-- `<<`: where a shifted field lies in the word.
use native.Mathlib.Nat.{pow-suc, one-le-pow, mod-eq_of_lt, mul-div_cancel}
use stm32_rtos.Base.{
  lt_or_ge, ℕ, zero, suc, ◌+◌, ◌-◌, ◌*◌, ◌/◌, ◌^◌, ◌≤◌, ◌<◌, bit_and, ◌≡◌, ap, inl, inr, arith,
}
use stm32_rtos.Bits.Digit.{digit, zero-digit, digit-bit_and, digit_above}
use stm32_rtos.Bits.Ops.{IsWord, shl32, shr32}
use stm32_rtos.Bits.Laws.{digit_ext, bit_and-ones}

double : (v k : ℕ) → v * 2 ^ suc k ≡ v * 2 ^ k * 2
double v k = omega (arith, ap (λ (t : ℕ). v * t) (pow-suc 2 k))

digit-mul_low : (k v i : ℕ) → i < k → digit (v * 2 ^ k) i ≡ 0
digit-mul_low zero v i h = absurd (omega arith)
digit-mul_low (suc k) v zero h = omega (arith, double v k)
digit-mul_low (suc k) v (suc i) h =
    let half : v * 2 ^ suc k / 2 ≡ v * 2 ^ k = omega (arith, double v k) in
    rw half (digit-mul_low k v i (omega arith))

digit-mul_high : (k v i : ℕ) → k ≤ i → digit (v * 2 ^ k) i ≡ digit v (i - k)
digit-mul_high zero v i h =
    let e : v * 2 ^ 0 ≡ v = omega arith in let e' : i - 0 ≡ i = omega arith in rw (e, e')
digit-mul_high (suc k) v zero h = absurd (omega arith)
digit-mul_high (suc k) v (suc i) h =
    let half : v * 2 ^ suc k / 2 ≡ v * 2 ^ k = omega (arith, double v k) in
    let e : suc i - suc k ≡ i - k = omega arith in rw (half, e) (digit-mul_high k v i (omega arith))

-- A field of `w` bits moved up by `k` lies below `2 ^ (k + w)`.
mul-lt_pow : (k w v : ℕ) → v < 2 ^ w → v * 2 ^ k < 2 ^ (k + w)
mul-lt_pow zero w v h =
    let e : v * 2 ^ 0 ≡ v = omega arith in let e' : 0 + w ≡ w = omega arith in rw (e, e') h
mul-lt_pow (suc k) w v h =
    let e : suc k + w ≡ suc (k + w) = omega arith in
    rw e (omega (arith, double v k, pow-suc 2 (k + w), mul-lt_pow k w v h))

pow_mono : (a b : ℕ) → a ≤ b → 2 ^ a ≤ 2 ^ b
pow_mono a zero h = let e : a ≡ 0 = omega arith in rw e (omega arith)
pow_mono zero (suc b) h = one-le-pow (suc b) 2 (omega arith)
pow_mono (suc a) (suc b) h = omega (arith, pow-suc 2 a, pow-suc 2 b, pow_mono a b (omega arith))

-- A shift that stays in the word is a product.
pub shl32-eq-mul : (w k v : ℕ) → v < 2 ^ w → k + w ≤ 32 → shl32 v k ≡ v * 2 ^ k
shl32-eq-mul w k v h fits =
    mod-eq_of_lt (omega (arith, mul-lt_pow k w v h, pow_mono (k + w) 32 fits))

pub shl32-IsWord : (v k : ℕ) → IsWord (shl32 v k)
shl32-IsWord v k = omega arith

-- A field that fits `w` bits stays within the mask of `w` ones moved along with it.
pub shl32-in :
    (w k v : ℕ) → v < 2 ^ w → k + w ≤ 32 → bit_and (shl32 v k) (shl32 (2 ^ w - 1) k) ≡ shl32 v k
shl32-in w k v h fits =
    let ones_fit : 2 ^ w - 1 < 2 ^ w = omega (arith, one-le-pow w 2) in
    rw (shl32-eq-mul w k v h fits, shl32-eq-mul w k (2 ^ w - 1) ones_fit fits)
      (digit_ext _ _ λ i. elim (lt_or_ge i k) [
        | inl lt ↦
            omega (arith, digit-bit_and (v * 2 ^ k) ((2 ^ w - 1) * 2 ^ k) i, digit-mul_low k v i lt)
        | inr ge ↦ omega (
          arith,
          digit-bit_and (v * 2 ^ k) ((2 ^ w - 1) * 2 ^ k) i,
          digit-mul_high k v i ge,
          digit-mul_high k (2 ^ w - 1) i ge,
          digit-bit_and v (2 ^ w - 1) (i - k),
          ap (λ (t : ℕ). digit t (i - k)) (bit_and-ones w v h),
        )
      ])

-- Fields at places that do not meet share no bit.
pub shl32_apart :
    (w k v x l u : ℕ)
    → v < 2 ^ w
    → u < 2 ^ x
    → k + w ≤ l
    → l + x ≤ 32
    → bit_and (shl32 v k) (shl32 u l) ≡ 0
shl32_apart w k v x l u h h' apart fits =
    rw (shl32-eq-mul w k v h (omega arith), shl32-eq-mul x l u h' fits)
      (digit_ext _ _ λ i. elim (lt_or_ge i l) [
        | inl lt ↦
            omega
              (arith, digit-bit_and (v * 2 ^ k) (u * 2 ^ l) i, zero-digit i, digit-mul_low l u i lt)
        | inr ge ↦ omega (
          arith,
          digit-bit_and (v * 2 ^ k) (u * 2 ^ l) i,
          zero-digit i,
          digit_above (k + w) (v * 2 ^ k) i (mul-lt_pow k w v h) (omega arith),
        )
      ])

-- `>>` undoes a shift that stays in the word.
pub shr32-shl32 : (w k v : ℕ) → v < 2 ^ w → k + w ≤ 32 → shr32 (shl32 v k) k ≡ v
shr32-shl32 w k v h fits =
    rw (shl32-eq-mul w k v h fits) (mul-div_cancel v (one-le-pow k 2 (omega arith)))
