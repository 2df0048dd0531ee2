-- ===== src/Nvic/Priority.antt =====
-- The priority bytes of drivers/src/nvic.c: what one function writes, the other reads.
use stm32_rtos.Base.{
  ℕ, ◌%◌, ◌^◌, ◌≤◌, ltb, ◌==◌, eq→==, ne→==, true, false, ◌≡◌, ap, ◌∙◌, ◌≢◌, refl, arith, pos, some,
}
use native.Mathlib.Nat.{mod-eq_of_lt}
use stm32_rtos.Bits.{shl32, shr32-shl32, shl32-eq-mul}
use stm32_rtos.Status.{ok_only, ok}
use stm32_rtos.Bus.{fresh}
use stm32_rtos.Nvic.{NvicRegisters, nvic_validate_irq, nvic_set_priority, nvic_get_priority}
use stm32_rtos.Nvic.Table.{is_device_irq, nvic_validate_irq_exact}

priority_byte : (p : ℕ) → p ≤ 15 → shl32 p 4 % 2 ^ 8 ≡ shl32 p 4
priority_byte p h = rw (shl32-eq-mul 4 4 p (omega arith) (omega arith)) (mod-eq_of_lt (omega arith))

validated : (n : ℕ) → is_device_irq (pos n) ≡ true → nvic_validate_irq (pos n) ≡ ok
validated n device = ok_only _ (nvic_validate_irq_exact (pos n) ∙ device)

-- A priority that `nvicSetPriority` accepts for an interrupt of the part is what
-- `nvicGetPriority` then gives, and the byte of any other interrupt is as it was.
pub nvic_get_priority-nvic_set_priority :
    (n p old m : ℕ) (s : NvicRegisters) (t : ℕ)
    → is_device_irq (pos n) ≡ true
    → p ≤ 15
    → m ≢ n
    → let written = nvic_set_priority (pos n) p (fresh s t) in
      (written.0 ≡ ok)
      × ((nvic_get_priority (pos n) (some old) written.1).0 ≡ (ok, some p))
      × (written.1.regs.ip m ≡ s.ip m)
unfolding nvic_set_priority nvic_get_priority
nvic_get_priority-nvic_set_priority n p old m s t device fits ne =
    let valid : nvic_validate_irq (pos n) ≡ ok = validated n device in
    let small : ltb 15 p ≡ false = ground arith in
    let here : (n == n) ≡ true = eq→== n n refl in
    rw (valid, small, here, priority_byte p fits)
      (
        refl,
        ap (λ (q : ℕ). (ok, some q)) (shr32-shl32 4 4 p (omega arith) (omega arith)),
        rw (ne→== m n ne) refl,
      )
