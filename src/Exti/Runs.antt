-- ===== src/Exti/Runs.antt =====
-- The registers after each call of the EXTI driver, for every argument.
use stm32_rtos.Base.{
  ℕ, ◌≤◌, ltb, ◌==◌, ◌!=◌, ◌&&◌, ◌||◌, Bool-cases, if◌then◌else◌, true, false, bit_and, bit_or, ◌≡◌,
  refl, inl, inr, arith,
}
use stm32_rtos.Bits.{shl32, inv32}
use stm32_rtos.Bus.{fresh}
use stm32_rtos.Exti.{
  raise_swier, write_pr, exti_validate_line, exti_configure, exti_enable_interrupt,
  exti_disable_interrupt, exti_trigger_software, exti_clear_pending,
}
use stm32_rtos.Exti.Table.{is_line, is_edge}
use stm32_rtos.Reg.Exti.{ExtiRegisters}

pub valid_line : (line : ℕ) → is_line line ≡ true → (ltb 22 line || line == 19) ≡ false
valid_line line h = ground arith

pub invalid_line : (line : ℕ) → is_line line ≡ false → (ltb 22 line || line == 19) ≡ true
invalid_line line h = ground arith

pub small_line : (line : ℕ) → is_line line ≡ true → line ≤ 22
small_line line h = ground arith

-- The registers after each call.
module _ (line : ℕ) (s : ExtiRegisters) where
  pub enable_runs :
      (exti_enable_interrupt line (fresh s 0)).1.regs
      ≡ (if is_line line then record s { imr = bit_or s.imr (shl32 1 line) } else s)
  unfolding exti_enable_interrupt exti_validate_line
  enable_runs = elim (Bool-cases (is_line line)) [
    | inl valid ↦ rw (valid, valid_line line valid) refl
    | inr refused ↦ rw (refused, invalid_line line refused) refl
  ]

  pub disable_runs :
      (exti_disable_interrupt line (fresh s 0)).1.regs
      ≡ (if is_line line then record s { imr = bit_and s.imr (inv32 (shl32 1 line)) } else s)
  unfolding exti_disable_interrupt exti_validate_line
  disable_runs = elim (Bool-cases (is_line line)) [
    | inl valid ↦ rw (valid, valid_line line valid) refl
    | inr refused ↦ rw (refused, invalid_line line refused) refl
  ]

  pub trigger_runs :
      (exti_trigger_software line (fresh s 0)).1.regs
      ≡ (if is_line line then raise_swier (shl32 1 line) s else s)
  unfolding exti_trigger_software exti_validate_line
  trigger_runs = elim (Bool-cases (is_line line)) [
    | inl valid ↦ rw (valid, valid_line line valid) refl
    | inr refused ↦ rw (refused, invalid_line line refused) refl
  ]

  pub clear_runs :
      (exti_clear_pending line (fresh s 0)).1.regs
      ≡ (if is_line line then write_pr (shl32 1 line) s else s)
  unfolding exti_clear_pending exti_validate_line
  clear_runs = elim (Bool-cases (is_line line)) [
    | inl valid ↦ rw (valid, valid_line line valid) refl
    | inr refused ↦ rw (refused, invalid_line line refused) refl
  ]

  pub configure_runs :
      (edge : ℕ)
      → (exti_configure line edge (fresh s 0)).1.regs ≡ (
          if is_line line && is_edge edge
          then record s {
            rtsr =
                if edge == 2
                then bit_and s.rtsr (inv32 (shl32 1 line))
                else bit_or s.rtsr (shl32 1 line);
            ftsr =
                if edge == 1
                then bit_and s.ftsr (inv32 (shl32 1 line))
                else bit_or s.ftsr (shl32 1 line);
          }
          else s)
  unfolding exti_configure exti_validate_line
  configure_runs edge = elim (Bool-cases (is_line line)) [
    | inr refused ↦ rw (refused, invalid_line line refused) refl
    | inl valid ↦ elim (Bool-cases (is_edge edge)) [
      | inr bad ↦
          let outside : (edge != 1 && edge != 2 && edge != 3) ≡ true = ground arith in
          rw (valid, bad, valid_line line valid, outside) refl
      | inl good ↦
          let inside : (edge != 1 && edge != 2 && edge != 3) ≡ false = ground arith in
          rw (valid, good, valid_line line valid, inside)
            elim (Bool-cases (edge == 2)) [
              | inl falling ↦ elim (Bool-cases (edge == 1)) [
                | inl rising ↦ rw (falling, rising) refl
                | inr other ↦ rw (falling, other) refl
              ]
              | inr not_falling ↦ elim (Bool-cases (edge == 1)) [
                | inl rising ↦ rw (not_falling, rising) refl
                | inr other ↦ rw (not_falling, other) refl
              ]
            ]
    ]
  ]
