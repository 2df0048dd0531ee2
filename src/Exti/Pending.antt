-- ===== src/Exti/Pending.antt =====
-- `extiClearPending` and `extiIsPending` on the pending register, which a written 1 clears.
use stm32_rtos.Base.{
  ℕ, ◌≤◌, ◌==◌, ==→eq, ◌!=◌, Bool, Bool-cases, if◌then◌else◌, true, false, bit_and, [], ◌∷◌, ◌≡◌,
  refl, ap, inl, inr, arith, some,
}
use stm32_rtos.Bits.{shl32, inv32, shl32-IsWord, and-inv32_self}
use stm32_rtos.Bus.{fresh}
use stm32_rtos.Exti.{exti_validate_line, exti_is_pending, exti_clear_pending}
use stm32_rtos.Exti.Lines.{clear_other}
use stm32_rtos.Exti.Runs.{valid_line, small_line}
use stm32_rtos.Exti.Table.{is_line}
use stm32_rtos.Reg.Exti.{ExtiRegisters}
use stm32_rtos.Status.{ok}

abbrev pub is_pending : ExtiRegisters → ℕ → Bool
is_pending s line = bit_and s.pr (shl32 1 line) != 0

abbrev pub is_raised : ExtiRegisters → ℕ → Bool
is_raised s line = bit_and s.swier (shl32 1 line) != 0

cleared_at :
    (r line p : ℕ)
    → line ≤ 22
    → p ≤ 22
    → (bit_and (bit_and r (inv32 (shl32 1 line))) (shl32 1 p) != 0)
      ≡ (if p == line then false else bit_and r (shl32 1 p) != 0)
cleared_at r line p low fits = elim (Bool-cases (p == line)) [
  | inl here ↦
      let e : p ≡ line = ==→eq p line here in
      rw (here, e) (ap (λ (x : ℕ). x != 0) (and-inv32_self r (shl32 1 line) (shl32-IsWord 1 line)))
  | inr other ↦
      rw other (
        ap (λ (x : ℕ). x != 0) (clear_other r line p low (omega arith) (λ e. absurd (grind arith))))
]

-- For two lines of the part, `extiClearPending` returns OK with one store, which changes PR and
-- SWIER alone; `extiIsPending` then finds the line cleared and any other line pending exactly if
-- it was, and the bit of the line in SWIER is cleared and that of any other line as it was.
pub exti_is_pending-exti_clear_pending :
    (line p : ℕ) (old : Bool) (s : ExtiRegisters) (t : ℕ)
    → is_line line ≡ true
    → is_line p ≡ true
    → let r = exti_clear_pending line (fresh s t) in
      (r.0 ≡ ok)
      × (r.1.log ≡ r.1.regs ∷ [])
      × (r.1.regs ≡ record s { pr = r.1.regs.pr; swier = r.1.regs.swier })
      × ((exti_is_pending p (some old) r.1).0
          ≡ (ok, some (if p == line then false else is_pending s p)))
      × (is_raised r.1.regs p ≡ (if p == line then false else is_raised s p))
unfolding exti_is_pending exti_clear_pending exti_validate_line
exti_is_pending-exti_clear_pending line p old s t valid valid' =
    let cleared = λ (r : ℕ). cleared_at r line p (small_line line valid) (small_line p valid') in
    rw (valid_line line valid, valid_line p valid')
      (refl, refl, refl, ap (λ (b : Bool). (ok, some b)) (cleared s.pr), cleared s.swier)
