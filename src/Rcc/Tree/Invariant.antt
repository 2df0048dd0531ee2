-- ===== src/Rcc/Tree/Invariant.antt =====
-- SYSCLK is never left without its source.
use stm32_rtos.Base.{ℕ, All, inl, inr}
use stm32_rtos.Bus.{Bus, Hw, fresh}
use stm32_rtos.Clocks.{Clocks}
use stm32_rtos.Clocks.Facts.{Steady}
use stm32_rtos.Rcc.Tree.{
  Feed, IsFed, IsSettled, Follows, ClockCall, idle, hsi_on, hsi_off, hse_on, hse_off, pll_set,
  pll_on, pll_off, buses, switch, Reach, here, after,
}
use stm32_rtos.Rcc.Tree.Kept.{Kept, after_step-Kept}
use stm32_rtos.Rcc.Tree.Oscillators.{
  rcc_hsi_enable-Kept, rcc_hsi_disable-Kept, rcc_hse_enable-Kept, rcc_hse_disable-Kept,
}
use stm32_rtos.Rcc.Tree.PllBuses.{
  rcc_pll_config-Kept, rcc_pll_enable-Kept, rcc_pll_disable-Kept, rcc_bus_prescaler_config-Kept,
}
use stm32_rtos.Rcc.Tree.Switch.{rcc_sysclk_switch-Switched}

module _ (hw : Hw Clocks) (steady : Steady hw) (follows : Follows hw) where
  call-Kept : {b c : Bus Clocks} (f : Feed) → ClockCall hw b c → Kept f b → (g : Feed) × Kept g c
  call-Kept f (idle b) k = (f, after_step-Kept hw steady follows f b k)
  call-Kept f (hsi_on b) k = (f, rcc_hsi_enable-Kept hw steady follows f b k)
  call-Kept f (hsi_off b) k = (f, rcc_hsi_disable-Kept hw steady follows f b k)
  call-Kept f (hse_on bypass b) k = (f, rcc_hse_enable-Kept hw steady follows f bypass b k)
  call-Kept f (hse_off b) k = (f, rcc_hse_disable-Kept hw steady follows f b k)
  call-Kept f (pll_set source m n p b) k =
      (f, rcc_pll_config-Kept hw steady follows f source m n p b k)
  call-Kept f (pll_on b) k = (f, rcc_pll_enable-Kept hw steady follows f b k)
  call-Kept f (pll_off b) k = (f, rcc_pll_disable-Kept hw steady follows f b k)
  call-Kept f (buses hpre ppre1 ppre2 b) k =
      (f, rcc_bus_prescaler_config-Kept hw steady follows f hpre ppre1 ppre2 b k)
  call-Kept f (switch source latency b in_time) k =
      elim (rcc_sysclk_switch-Switched hw steady follows f source latency b k).now [
        | inl late ↦ absurd (in_time late)
        | inr there ↦ there
      ]

  reach-Kept : {b c : Bus Clocks} (f : Feed) → Reach hw b c → Kept f b → (g : Feed) × Kept g c
  reach-Kept f (here b) k = (f, k)
  reach-Kept f (after call rest) k = let next = call-Kept f call k in reach-Kept next.0 rest next.1

-- On hardware that leaves the configuration bits alone and moves CFGR.SWS only to a requested
-- source that is switched on: whatever oscillator, PLL, prescaler and switch calls are made, in
-- whatever order, from a settled state, as long as no switch returns TIMEOUT, every state stored
-- on the way has the source of SYSCLK switched on, and the state at the end is settled.
pub reach-IsFed :
    (hw : Hw Clocks) (s : Clocks) (t : ℕ) (end : Bus Clocks)
    → Steady hw
    → Follows hw
    → IsSettled s
    → Reach hw (fresh s t) end
    → All IsFed end.log × IsSettled end.regs
reach-IsFed hw s t end steady follows (f, runs, asked) reach =
    let (g, k) =
      reach-Kept hw steady follows f reach
        (record { logged = tt; in_use = runs.in_use; facts = (asked, runs.on) }) in
    (k.logged, (g, record { in_use = k.in_use; on = k.facts.1 }, k.facts.0))
