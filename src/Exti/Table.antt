-- ===== src/Exti/Table.antt =====
-- The EXTI lines as their driver promises them: a configuration for each line, and what each call
-- makes of them.
use stm32_rtos.Base.{ℕ, leb, ◌==◌, ◌!=◌, ◌&&◌, Bool, if◌then◌else◌, List, [], ◌∷◌}
use stm32_rtos.Bits.{field_of}
use stm32_rtos.Bus.{fresh}
use stm32_rtos.Exti.{
  exti_configure, exti_enable_interrupt, exti_disable_interrupt, exti_trigger_software,
  exti_clear_pending,
}
use stm32_rtos.Reg.Exti.{ExtiRegisters}

-- Each is 0 or 1: the interrupt mask, the two edges, the software trigger, and whether the line is
-- pending.
pub record LineConfig : Type 0 where
  pub enabled : ℕ
  pub rising : ℕ
  pub falling : ℕ
  pub raised : ℕ
  pub pending : ℕ

-- The configuration of a line, read off the registers.
abbrev pub view : ExtiRegisters → ℕ → LineConfig
view s p = record {
  enabled = field_of 1 p s.imr;
  rising = field_of 1 p s.rtsr;
  falling = field_of 1 p s.ftsr;
  raised = field_of 1 p s.swier;
  pending = field_of 1 p s.pr;
}

pub data Call : Type 0 where
  configure : (line edge : ℕ) → Call
  enable : (line : ℕ) → Call
  disable : (line : ℕ) → Call
  trigger : (line : ℕ) → Call
  clear : (line : ℕ) → Call

-- A call on the registers. Its status is dropped.
abbrev pub step : Call → ExtiRegisters → ExtiRegisters
step (configure line edge) s = (exti_configure line edge (fresh s 0)).1.regs
step (enable line) s = (exti_enable_interrupt line (fresh s 0)).1.regs
step (disable line) s = (exti_disable_interrupt line (fresh s 0)).1.regs
step (trigger line) s = (exti_trigger_software line (fresh s 0)).1.regs
step (clear line) s = (exti_clear_pending line (fresh s 0)).1.regs

unfoldable pub run : List Call → ExtiRegisters → ExtiRegisters
run [] s = s
run (call ∷ calls) s = run calls (step call s)

-- The lines of the part: 0 to 22, but for 19.
abbrev pub is_line : ℕ → Bool
is_line line = leb line 22 && line != 19

abbrev pub is_edge : ℕ → Bool
is_edge edge = leb 1 edge && leb edge 3

abbrev pub update : (ℕ → LineConfig) → ℕ → LineConfig → ℕ → LineConfig
update f line c p = if p == line then c else f p

-- A call on the configurations: it sets those of its line, or is refused and changes nothing.
abbrev pub apply : Call → (ℕ → LineConfig) → ℕ → LineConfig
apply (configure line edge) f =
    if is_line line && is_edge edge
    then update f line (record (f line) {
      rising = if edge == 2 then 0 else 1;
      falling = if edge == 1 then 0 else 1;
    })
    else f
apply (enable line) f = if is_line line then update f line (record (f line) { enabled = 1 }) else f
apply (disable line) f = if is_line line then update f line (record (f line) { enabled = 0 }) else f
apply (trigger line) f =
    if is_line line
    then update f line (record (f line) {
      raised = 1;
      pending = if (f line).raised == 0 && (f line).enabled == 1 then 1 else (f line).pending;
    })
    else f
apply (clear line) f =
    if is_line line then update f line (record (f line) { raised = 0; pending = 0 }) else f

unfoldable pub replay : List Call → (ℕ → LineConfig) → ℕ → LineConfig
replay [] f = f
replay (call ∷ calls) f = replay calls (apply call f)
