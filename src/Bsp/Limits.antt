-- ===== src/Bsp/Limits.antt =====
-- `bspClockInit` in frequencies: no stored state is too fast for the regulator, the flash or the
-- buses, and success is the clock tree of bsp.h.
use stm32_rtos.Bsp.Rates.{IsBoth, IsBoth-limits, full_rates}
use stm32_rtos.Bsp.Asked.{hpre_none, ppre1_is, IsAsked}
use stm32_rtos.Reg.Pwr.{pwr_cr_vos_scale1}
use stm32_rtos.Pwr.{pwr_set_voltage_scale, pwr_wait_voltage_scale_ready, pwr_enable_overdrive}
use stm32_rtos.Rcc.Gate.{rcc_pwr_clock_enable}
use stm32_rtos.Rcc.Sysclk.InUse.{InUse, stays-InUse, if_ok_reaches, rcc_sysclk_switch-InUse}
use stm32_rtos.Flash.{flash_enable_caches}
use stm32_rtos.Bus.Keeps.{Held}
use stm32_rtos.Reg.Rcc.{rcc_cr_hsebyp, rcc_pllcfgr_pllsrc_hse}
use stm32_rtos.Rcc.Sysclk.{rcc_bus_prescaler_config, rcc_sysclk_switch}
use stm32_rtos.Base.{ℕ, ◌≡◌, inl, All, arith, All-map, All-zip}
use stm32_rtos.Status.{ok}
use stm32_rtos.Bus.{Bus, Hw, fresh, if_ok, pure, ◌>>◌}
use stm32_rtos.Clocks.{Clocks}
use stm32_rtos.Clocks.Facts.{Steady, IsFact}
use stm32_rtos.Rcc.Oscillator.{active_source, rcc_hse_enable}
use stm32_rtos.Rcc.Pll.{rcc_pll_config, rcc_pll_enable}
use stm32_rtos.Rcc.Rates.{sysclk_hz, hclk_hz, pclk1_hz, pclk2_hz, WithinLimits}
use stm32_rtos.Rcc.Sysclk.Config.{sw_is}
use stm32_rtos.Rcc.Tree.{Follows}
use stm32_rtos.Bsp.{
  bsp_clock_init, bsp_hse_hz, bsp_sysclk_hz, bsp_hclk_hz, bsp_pclk1_hz, bsp_pclk2_hz,
}
use stm32_rtos.Bsp.Safety.{IsSafe, bsp_clock_init-IsSafe, bsp_clock_init-ok}
use stm32_rtos.Bsp.Source.{bsp_clock_init-IsAsked}

-- SYSCLK on HSI, asked for and in use, with AHB and APB1 undivided, as after a reset.
pub record OnHsi (s : Clocks) : Type 0 where
  pub asked : IsFact s (sw_is 0)
  pub in_use : active_source s ≡ 0
  pub ahb_undivided : IsFact s hpre_none
  pub apb1_undivided : IsFact s (ppre1_is 0)

module _ (hw : Hw Clocks) (s : Clocks) (t : ℕ) (steady : Steady hw) (follows : Follows hw)
    (start : OnHsi s) where
  pub bsp_clock_init-IsBoth : Held IsBoth (bsp_clock_init hw (fresh s t)).1
  bsp_clock_init-IsBoth =
      let safe = bsp_clock_init-IsSafe hw s t steady start.asked in
      let asked = bsp_clock_init-IsAsked hw steady follows (fresh s t) (record {
        logged = tt;
        now = record {
          divided = (start.ahb_undivided, inl start.apb1_undivided);
          switching = inl (start.asked, start.in_use);
        };
      }) in
      record { logged = All-zip IsSafe IsAsked _ safe.0 asked.logged; now = (safe.1, asked.now) }

  -- Called with SYSCLK on HSI and AHB and APB1 undivided, on hardware that leaves the configuration bits
  -- alone and moves CFGR.SWS only to a requested source that is switched on: in every state that
  -- `bspClockInit` stores and in its last, SYSCLK is within what the regulator supplies, HCLK
  -- within what the flash latency allows, PCLK1 at most 45 MHz and PCLK2 at most 90 MHz.
  pub bsp_clock_init-WithinLimits :
      All (WithinLimits bsp_hse_hz) (bsp_clock_init hw (fresh s t)).1.log
      × WithinLimits bsp_hse_hz (bsp_clock_init hw (fresh s t)).1.regs
  bsp_clock_init-WithinLimits =
      let both = bsp_clock_init-IsBoth in
      (All-map IsBoth-limits _ both.logged, IsBoth-limits _ both.now)

  caches-InUse : (b : Bus Clocks) → InUse 2 b.regs → InUse 2 (flash_enable_caches hw b).1.regs
  unfolding flash_enable_caches
  caches-InUse b h = stays-InUse hw steady follows 2 b.time b.regs h

  bsp_clock_init-InUse :
      (bsp_clock_init hw (fresh s t)).0 ≡ ok → InUse 2 (bsp_clock_init hw (fresh s t)).1.regs
  unfolding bsp_clock_init
  bsp_clock_init-InUse done =
      let r0 = rcc_hse_enable hw rcc_cr_hsebyp (rcc_pwr_clock_enable hw (fresh s t)).1 in
      let r1 = if_ok r0.0 (pwr_set_voltage_scale hw pwr_cr_vos_scale1) r0.1 in
      let r2 = if_ok r1.0 (rcc_pll_config hw rcc_pllcfgr_pllsrc_hse 8 360 0) r1.1 in
      let r3 = if_ok r2.0 (rcc_pll_enable hw) r2.1 in
      let r4 = if_ok r3.0 (pwr_wait_voltage_scale_ready hw) r3.1 in
      let r5 = if_ok r4.0 (pwr_enable_overdrive hw) r4.1 in
      let r6 = if_ok r5.0 (rcc_bus_prescaler_config hw 0 5 4) r5.1 in
      let r7 = if_ok r6.0 (rcc_sysclk_switch hw 2 5) r6.1 in
      if_ok_reaches (λ c. InUse 2 c.regs) r7.0 (flash_enable_caches hw >> pure r7.0) r7.1
        (λ switched. caches-InUse r7.1 (
          if_ok_reaches (λ c. InUse 2 c.regs) r6.0 (rcc_sysclk_switch hw 2 5) r6.1
            (rcc_sysclk_switch-InUse hw steady follows 2 (omega arith) 5 r6.1) switched))
        done

  -- Called with SYSCLK on HSI and AHB and APB1 undivided, on hardware that leaves the configuration bits
  -- alone and moves CFGR.SWS only to a requested source that is switched on: where `bspClockInit`
  -- returns OK, the registers at its return set SYSCLK, HCLK, PCLK1 and PCLK2 to `BSP_SYSCLK_HZ`,
  -- `BSP_HCLK_HZ`, `BSP_PCLK1_HZ` and `BSP_PCLK2_HZ`.
  pub bsp_clock_init_rates :
      (bsp_clock_init hw (fresh s t)).0 ≡ ok
      → let end = (bsp_clock_init hw (fresh s t)).1.regs in
        (sysclk_hz bsp_hse_hz end ≡ bsp_sysclk_hz)
        × (hclk_hz bsp_hse_hz end ≡ bsp_hclk_hz)
        × (pclk1_hz bsp_hse_hz end ≡ bsp_pclk1_hz)
        × (pclk2_hz bsp_hse_hz end ≡ bsp_pclk2_hz)
  bsp_clock_init_rates done =
      full_rates (bsp_clock_init hw (fresh s t)).1.regs (bsp_clock_init-InUse done).1
        (bsp_clock_init-ok hw s t steady start.asked done).1.1.1
