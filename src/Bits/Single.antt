-- ===== src/Bits/Single.antt =====
-- A single bit of a word under its mask.
use native.Mathlib.Nat.{pow-suc}
use stm32_rtos.Base.{ℕ, zero, suc, ◌/◌, ◌%◌, ◌^◌, ◌≤◌, bit_and, ◌≡◌, ◌⊎◌, inl, inr, ap, ◌∙◌, arith}
use stm32_rtos.Bits.Laws.{bit_and_comm, zero-bit_and}
use stm32_rtos.Bits.Ops.{shl32}
use stm32_rtos.Bits.Shift.{shl32-eq-mul}
use stm32_rtos.Bits.Step.{bit_and_step}

single : (k x : ℕ) → (bit_and x (2 ^ k) ≡ 0) ⊎ (bit_and x (2 ^ k) ≡ 2 ^ k)
single zero x =
    let none : bit_and (x / 2) 0 ≡ 0 = bit_and_comm (x / 2) 0 ∙ zero-bit_and (x / 2) in
    let low : (x % 2 ≡ 0) ⊎ (x % 2 ≡ 1) = grind arith in
    elim low [
      | inl off ↦ inl (omega (arith, bit_and_step x 1))
      | inr on ↦ inr (omega (arith, bit_and_step x 1))
    ]
single (suc k) x =
    let half : 2 ^ suc k / 2 ≡ 2 ^ k = omega (arith, pow-suc 2 k) in
    let same : bit_and (x / 2) (2 ^ suc k / 2) ≡ bit_and (x / 2) (2 ^ k) =
      ap (bit_and (x / 2)) half in
    elim (single k (x / 2)) [
      | inl off ↦ inl (omega (arith, bit_and_step x (2 ^ suc k), pow-suc 2 k))
      | inr on ↦ inr (omega (arith, bit_and_step x (2 ^ suc k), pow-suc 2 k))
    ]

pub single_bit :
    (k x : ℕ) → k ≤ 31 → (bit_and x (shl32 1 k) ≡ 0) ⊎ (bit_and x (shl32 1 k) ≡ shl32 1 k)
single_bit k x h =
    let e : shl32 1 k ≡ 2 ^ k = shl32-eq-mul 1 k 1 (omega arith) (omega arith) ∙ omega arith in
    rw e (single k x)
