-- ===== src/Exti/Lines.antt =====
-- One bit of an EXTI register is set or cleared: the other bits stay as they were.
use stm32_rtos.Base.{ℕ, ◌≤◌, ◌<◌, bit_and, bit_or, ◌≡◌, ◌≢◌, sym, ◌∙◌, ◌⊎◌, inl, inr, arith}
use stm32_rtos.Bits.{
  inv32, and-inv32_disjoint, shl32-IsWord, shl32, set_frame, shl32_apart, bit_and_comm,
}

bits_apart : (a b : ℕ) → a ≢ b → a ≤ 31 → b ≤ 31 → bit_and (shl32 1 a) (shl32 1 b) ≡ 0
bits_apart a b ne ha hb =
    let order : (a < b) ⊎ (b < a) = grind arith in
    elim order [
      | inl lt ↦ shl32_apart 1 a 1 1 b 1 (omega arith) (omega arith) (omega arith) (omega arith)
      | inr gt ↦
          bit_and_comm (shl32 1 a) (shl32 1 b)
          ∙ shl32_apart 1 b 1 1 a 1 (omega arith) (omega arith) (omega arith) (omega arith)
    ]

pub set_other :
    (r line other : ℕ)
    → line ≤ 22
    → other ≤ 31
    → other ≢ line
    → bit_and (bit_or r (shl32 1 line)) (shl32 1 other) ≡ bit_and r (shl32 1 other)
set_other r line other fits low ne =
    set_frame r (shl32 1 line) (shl32 1 other)
      (bits_apart line other (λ e. ne (sym e)) (omega arith) low)

pub clear_other :
    (r line other : ℕ)
    → line ≤ 22
    → other ≤ 31
    → other ≢ line
    → bit_and (bit_and r (inv32 (shl32 1 line))) (shl32 1 other) ≡ bit_and r (shl32 1 other)
clear_other r line other fits low ne =
    and-inv32_disjoint r (shl32 1 line) (shl32 1 other) (shl32-IsWord 1 line) (shl32-IsWord 1 other)
      (bits_apart line other (λ e. ne (sym e)) (omega arith) low)
