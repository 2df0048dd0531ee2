-- ===== src/Exti/Replay.antt =====
-- The EXTI driver implements its table: any sequence of calls on the registers reads, line by line,
-- as the same calls on the configurations.
use stm32_rtos.Exti.Refine.{
  enable_refines, disable_refines, trigger_refines, clear_refines, configure_refines,
}
use stm32_rtos.Base.{ℕ, ◌≤◌, ◌&&◌, Bool-cases, ◌≡◌, refl, ◌∙◌, inl, inr, List, [], ◌∷◌, arith}
use stm32_rtos.Exti.Table.{LineConfig, view, Call, step, run, is_line, is_edge, apply, replay}
use stm32_rtos.Exti.Table.Call.{configure, enable, disable, trigger, clear}
use stm32_rtos.Reg.Exti.{ExtiRegisters}

call_refines :
    (call : Call) (s : ExtiRegisters) (p : ℕ)
    → p ≤ 31
    → view (step call s) p ≡ apply call (view s) p
call_refines (configure line edge) s p fits = configure_refines line s p fits edge
call_refines (enable line) s p fits = enable_refines line s p fits
call_refines (disable line) s p fits = disable_refines line s p fits
call_refines (trigger line) s p fits = trigger_refines line s p fits
call_refines (clear line) s p fits = clear_refines line s p fits

-- A call looks at no configuration but that of the line asked for, or of its own.
apply_same :
    (call : Call) (f g : ℕ → LineConfig)
    → ((q : ℕ) → q ≤ 31 → f q ≡ g q)
    → (p : ℕ) → p ≤ 31
    → apply call f p ≡ apply call g p
apply_same (configure line edge) f g same p hp = elim (Bool-cases (is_line line && is_edge edge)) [
  | inl valid ↦ rw (valid, same p hp, same line (ground arith)) refl
  | inr refused ↦ rw (refused, same p hp) refl
]
apply_same (enable line) f g same p hp = elim (Bool-cases (is_line line)) [
  | inl valid ↦ rw (valid, same p hp, same line (ground arith)) refl
  | inr refused ↦ rw (refused, same p hp) refl
]
apply_same (disable line) f g same p hp = elim (Bool-cases (is_line line)) [
  | inl valid ↦ rw (valid, same p hp, same line (ground arith)) refl
  | inr refused ↦ rw (refused, same p hp) refl
]
apply_same (trigger line) f g same p hp = elim (Bool-cases (is_line line)) [
  | inl valid ↦ rw (valid, same p hp, same line (ground arith)) refl
  | inr refused ↦ rw (refused, same p hp) refl
]
apply_same (clear line) f g same p hp = elim (Bool-cases (is_line line)) [
  | inl valid ↦ rw (valid, same p hp, same line (ground arith)) refl
  | inr refused ↦ rw (refused, same p hp) refl
]

replay_same :
    (calls : List Call) (f g : ℕ → LineConfig)
    → ((q : ℕ) → q ≤ 31 → f q ≡ g q)
    → (p : ℕ) → p ≤ 31
    → replay calls f p ≡ replay calls g p
unfolding replay
replay_same [] f g same p hp = same p hp
replay_same (call ∷ calls) f g same p hp = replay_same calls _ _ (apply_same call f g same) p hp

-- Whatever calls of `extiConfigure`, `extiEnableInterrupt`, `extiDisableInterrupt`,
-- `extiTriggerSoftware` and `extiClearPending` are made in whatever order, with whatever arguments,
-- and with no edge on a line between them, IMR, RTSR, FTSR, SWIER and PR read at each bit as the
-- same calls on the configurations.
pub calls_refine :
    (calls : List Call) (s : ExtiRegisters) (p : ℕ)
    → p ≤ 31
    → view (run calls s) p ≡ replay calls (view s) p
unfolding run replay
calls_refine [] s p hp = refl
calls_refine (call ∷ calls) s p hp =
    calls_refine calls (step call s) p hp ∙ replay_same calls _ _ (call_refines call s) p hp
