-- ===== src/Nvic/Table.antt =====
-- `nvicValidateIrq` against the list of the interrupts that exist.
use stm32_rtos.Base.{
  same, same-eq, lt_or_ge, all_below, at_of_below, ℕ, inl, inr, ◌<◌, ltb, leb, ◌==◌, ◌&&◌, ◌||◌,
  not, Bool, true, false, ◌≡◌, refl, arith, ℤ, pos, negsuc, List, [], ◌∷◌,
}
use stm32_rtos.Status.{is_ok}
use stm32_rtos.Nvic.{nvic_validate_irq}

-- The positions of the vector table without an interrupt.
abbrev pub reserved : List ℕ
reserved = 61 ∷ 62 ∷ 79 ∷ 80 ∷ 82 ∷ 83 ∷ 85 ∷ 86 ∷ 88 ∷ 89 ∷ 90 ∷ []

abbrev pub has : List ℕ → ℕ → Bool
has [] n = false
has (x ∷ xs) n = n == x || has xs n

-- A device interrupt: a number from 0 to 96 that is not reserved.
abbrev pub is_device_irq : ℤ → Bool
is_device_irq (negsuc n) = false
is_device_irq (pos n) = leb n 96 && not (has reserved n)

-- Both tests agree at a number.
agree : ℕ → Bool
agree n = same (is_ok (nvic_validate_irq (pos n))) (is_device_irq (pos n))

agree_97 : all_below agree 97 ≡ true
unfolding all_below agree nvic_validate_irq
agree_97 = refl

agree_at : (n : ℕ) → n < 97 → is_ok (nvic_validate_irq (pos n)) ≡ is_device_irq (pos n)
unfolding agree
agree_at n lt = same-eq _ _ (at_of_below agree 97 n agree_97 lt)

-- `nvicValidateIrq` accepts exactly the interrupts that the part has: every number from 0 to 96
-- but the eleven reserved ones, no system exception and no greater number.
pub nvic_validate_irq_exact : (irqn : ℤ) → is_ok (nvic_validate_irq irqn) ≡ is_device_irq irqn
unfolding nvic_validate_irq
nvic_validate_irq_exact (negsuc n) = refl
nvic_validate_irq_exact (pos n) = elim (lt_or_ge n 97) [
  | inl lt ↦ agree_at n lt
  | inr ge ↦
      let out : ltb 96 n ≡ true = ground arith in
      let out' : leb n 96 ≡ false = ground arith in rw (out, out')
]
