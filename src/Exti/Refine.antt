-- ===== src/Exti/Refine.antt =====
-- Each call of the EXTI driver implements the table: it reads as its call on the configurations.
use stm32_rtos.Exti.Runs.{
  small_line, enable_runs, disable_runs, trigger_runs, clear_runs, configure_runs,
}
use stm32_rtos.Base.{
  ne→==, ◌⊎◌, ◌^◌, ℕ, ◌≤◌, ◌==◌, ==→eq, ◌&&◌, Bool, Bool-cases, if◌then◌else◌, true, false, bit_and,
  bit_or, ◌≡◌, refl, ap, ◌∙◌, inl, inr, arith, split_and,
}
use native.Mathlib.Nat.{zero-div, one-le-pow}
use stm32_rtos.Bits.{
  shl32-eq-mul, single_bit, bit_or-zero, shl32, shr32, inv32, field_of, field_of-clear,
  field_of-clear_other, or-and_self, shr32-shl32,
}
use stm32_rtos.Exti.Lines.{set_other}
use stm32_rtos.Exti.Table.{LineConfig, view, step, is_line, is_edge, apply}
use stm32_rtos.Exti.Table.Call.{configure, enable, disable, trigger, clear}
use stm32_rtos.Reg.Exti.{ExtiRegisters}

config_eq :
    (c d : LineConfig)
    → c.enabled ≡ d.enabled
    → c.rising ≡ d.rising
    → c.falling ≡ d.falling
    → c.raised ≡ d.raised
    → c.pending ≡ d.pending
    → c ≡ d
config_eq c d a1 a2 a3 a4 a5 =
    λ i. record { enabled = a1 i; rising = a2 i; falling = a3 i; raised = a4 i; pending = a5 i }

-- One bit of a register after the bit of a line is set or cleared.
module _ (r line p : ℕ) (low : line ≤ 22) (fits : p ≤ 31) where
  set_at : field_of 1 p (bit_or r (shl32 1 line)) ≡ (if p == line then 1 else field_of 1 p r)
  set_at = elim (Bool-cases (p == line)) [
    | inl here ↦
        let e : p ≡ line = ==→eq p line here in
        rw (here, e)
          (ap (λ (x : ℕ). shr32 x line) (or-and_self r (shl32 1 line))
            ∙ shr32-shl32 1 line 1 (omega arith) (omega arith))
    | inr other ↦
        rw other (ap (λ (x : ℕ). shr32 x p) (set_other r line p low fits (λ e. ground arith)))
  ]

  clear_at :
      field_of 1 p (bit_and r (inv32 (shl32 1 line))) ≡ (if p == line then 0 else field_of 1 p r)
  clear_at = elim (Bool-cases (p == line)) [
    | inl here ↦
        let e : p ≡ line = ==→eq p line here in rw (here, e) (field_of-clear 1 line r (omega arith))
    | inr other ↦
        rw other (field_of-clear_other 1 line r (omega arith) p (omega arith) (grind arith))
  ]

  same_at : field_of 1 p r ≡ (if p == line then field_of 1 line r else field_of 1 p r)
  same_at = elim (Bool-cases (p == line)) [
    | inl here ↦ rw (here, ==→eq p line here) refl
    | inr other ↦ rw other refl
  ]

  -- The bit is cleared on one test, and set otherwise.
  edge_at :
      (off : Bool)
      → field_of 1 p (if off then bit_and r (inv32 (shl32 1 line)) else bit_or r (shl32 1 line))
        ≡ (if p == line then (if off then 0 else 1) else field_of 1 p r)
  edge_at true = clear_at
  edge_at false = set_at

-- The bit of a line by its field.
bit_cases :
    (r line : ℕ)
    → line ≤ 22
    → ((bit_and r (shl32 1 line) ≡ 0) × (field_of 1 line r ≡ 0))
      ⊎ (bit_and r (shl32 1 line) ≡ shl32 1 line) × (field_of 1 line r ≡ 1)
bit_cases r line low = elim (single_bit line r (omega arith)) [
  | inl off ↦ inl (off, ap (λ (x : ℕ). shr32 x line) off ∙ zero-div (2 ^ line))
  | inr on ↦
      inr (on, ap (λ (x : ℕ). shr32 x line) on ∙ shr32-shl32 1 line 1 (omega arith) (omega arith))
]

-- PR after a software trigger.
pended_at :
    (pr imr swier line p : ℕ)
    → line ≤ 22
    → p ≤ 31
    → field_of 1 p
        (if bit_and swier (shl32 1 line) == 0 then bit_or pr (bit_and imr (shl32 1 line)) else pr)
      ≡ (if p == line
          then (if field_of 1 line swier == 0 && field_of 1 line imr == 1
              then 1
              else field_of 1 line pr)
          else field_of 1 p pr)
pended_at pr imr swier line p low fits = elim (bit_cases swier line low) [
  | inr (on, raised) ↦
      let apart : (shl32 1 line == 0) ≡ false = ne→== _ _ (λ e.
        absurd (
          omega
            (arith, e, one-le-pow line 2, shl32-eq-mul 1 line 1 (omega arith) (omega arith)))) in
      rw (raised, on, apart) (same_at pr line p low fits)
  | inl (off, lowered) ↦ elim (bit_cases imr line low) [
    | inl (masked, disabled) ↦
        rw (lowered, off, disabled, masked, bit_or-zero pr) (same_at pr line p low fits)
    | inr (unmasked, enabled) ↦ rw (lowered, off, enabled, unmasked) (set_at pr line p low fits)
  ]
]

-- Two configurations, one of which is picked, field by field.
config_at :
    (c d e : LineConfig) (b : Bool)
    → c.enabled ≡ (if b then d.enabled else e.enabled)
    → c.rising ≡ (if b then d.rising else e.rising)
    → c.falling ≡ (if b then d.falling else e.falling)
    → c.raised ≡ (if b then d.raised else e.raised)
    → c.pending ≡ (if b then d.pending else e.pending)
    → c ≡ (if b then d else e)
config_at c d e true a1 a2 a3 a4 a5 = config_eq c d a1 a2 a3 a4 a5
config_at c d e false a1 a2 a3 a4 a5 = config_eq c e a1 a2 a3 a4 a5

module _ (line : ℕ) (s : ExtiRegisters) (p : ℕ) (fits : p ≤ 31) where
  -- The registers that a call leaves alone.
  kept :
      (r : ℕ)
      → is_line line ≡ true
      → field_of 1 p r ≡ (if p == line then field_of 1 line r else field_of 1 p r)
  kept r valid = same_at r line p (small_line line valid) fits

  pub enable_refines : view (step (enable line) s) p ≡ apply (enable line) (view s) p
  enable_refines = elim (Bool-cases (is_line line)) [
    | inr refused ↦ rw (enable_runs line s, refused) refl
    | inl valid ↦
        rw (enable_runs line s, valid)
          (config_at _ _ _ (p == line) (set_at s.imr line p (small_line line valid) fits)
            (kept s.rtsr valid) (kept s.ftsr valid) (kept s.swier valid) (kept s.pr valid))
  ]

  pub disable_refines : view (step (disable line) s) p ≡ apply (disable line) (view s) p
  disable_refines = elim (Bool-cases (is_line line)) [
    | inr refused ↦ rw (disable_runs line s, refused) refl
    | inl valid ↦
        rw (disable_runs line s, valid)
          (config_at _ _ _ (p == line) (clear_at s.imr line p (small_line line valid) fits)
            (kept s.rtsr valid) (kept s.ftsr valid) (kept s.swier valid) (kept s.pr valid))
  ]

  pub trigger_refines : view (step (trigger line) s) p ≡ apply (trigger line) (view s) p
  trigger_refines = elim (Bool-cases (is_line line)) [
    | inr refused ↦ rw (trigger_runs line s, refused) refl
    | inl valid ↦
        rw (trigger_runs line s, valid)
          (config_at _ _ _ (p == line) (kept s.imr valid) (kept s.rtsr valid) (kept s.ftsr valid)
            (set_at s.swier line p (small_line line valid) fits)
            (pended_at s.pr s.imr s.swier line p (small_line line valid) fits))
  ]

  pub clear_refines : view (step (clear line) s) p ≡ apply (clear line) (view s) p
  clear_refines = elim (Bool-cases (is_line line)) [
    | inr refused ↦ rw (clear_runs line s, refused) refl
    | inl valid ↦
        rw (clear_runs line s, valid)
          (config_at _ _ _ (p == line) (kept s.imr valid) (kept s.rtsr valid) (kept s.ftsr valid)
            (clear_at s.swier line p (small_line line valid) fits)
            (clear_at s.pr line p (small_line line valid) fits))
  ]

  pub configure_refines :
      (edge : ℕ) → view (step (configure line edge) s) p ≡ apply (configure line edge) (view s) p
  configure_refines edge = elim (Bool-cases (is_line line && is_edge edge)) [
    | inr refused ↦ rw (configure_runs line s edge, refused) refl
    | inl good ↦
        let valid = (split_and (is_line line) (is_edge edge) good).0 in
        rw (configure_runs line s edge, good)
          (config_at _ _ _ (p == line) (kept s.imr valid)
            (edge_at s.rtsr line p (small_line line valid) fits (edge == 2))
            (edge_at s.ftsr line p (small_line line valid) fits (edge == 1)) (kept s.swier valid)
            (kept s.pr valid))
  ]
