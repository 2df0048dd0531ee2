-- ===== src/Bsp/Progress.antt =====
-- `bspClockInit` returns OK where the hardware answers.
use stm32_rtos.Base.{ℕ, ◌≡◌, refl, [], ◌∷◌}
use stm32_rtos.Status.{ok}
use stm32_rtos.Bus.{Bus, Hw, fresh}
use stm32_rtos.Clocks.{Clocks}
use stm32_rtos.Clocks.Facts.{cr, Steady, IsFact, Holds}
use stm32_rtos.Bsp.{bsp_clock_init}
use stm32_rtos.Pwr.{pwr_set_voltage_scale, pwr_wait_voltage_scale_ready, pwr_enable_overdrive}
use stm32_rtos.Pwr.Config.{
  pwr_set_voltage_scale-Ends, pwr_wait_voltage_scale_ready-Ends, pwr_enable_overdrive-Ends,
}
use stm32_rtos.Rcc.Gate.{rcc_pwr_clock_enable}
use stm32_rtos.Rcc.Oscillator.{rcc_hse_enable}
use stm32_rtos.Rcc.Oscillator.Config.{rcc_hse_enable-Ends}
use stm32_rtos.Rcc.Pll.{rcc_pll_config, rcc_pll_enable}
use stm32_rtos.Rcc.Pll.Config.{rcc_pll_enable-Ends}
use stm32_rtos.Rcc.Sysclk.{rcc_bus_prescaler_config}
use stm32_rtos.Reg.Pwr.{pwr_cr_vos_scale1}
use stm32_rtos.Reg.Rcc.{rcc_cr_hsebyp, rcc_pllcfgr_pllsrc_hse, rcc_cr_hseon, rcc_cr_pllon}
use stm32_rtos.Rcc.Sysclk.Config.{rcc_bus_prescaler_config-Ends}
use stm32_rtos.Bsp.Responsive.{IsResponsive}
use stm32_rtos.Bsp.Answers.{
  U, off_facts, pll_on, standing, Ends-Stands, hse_enabled, scale_set, pll_configured, pll_enabled,
  scale_ready, overdriven, prescaled, switched, clocked,
}

-- The steps up to the PLL being on.
module _ (hw : Hw Clocks) (steady : Steady hw) (responds : IsResponsive hw) (s : Clocks) (t : ℕ)
    (off : Holds off_facts s) where
  abbrev powered : Bus Clocks
  powered = (rcc_pwr_clock_enable hw (fresh s t)).1

  abbrev with_hse : Bus Clocks
  with_hse = (rcc_hse_enable hw rcc_cr_hsebyp powered).1

  abbrev with_scale : Bus Clocks
  with_scale = (pwr_set_voltage_scale hw pwr_cr_vos_scale1 with_hse).1

  abbrev with_config : Bus Clocks
  with_config = (rcc_pll_config hw rcc_pllcfgr_pllsrc_hse 8 360 0 with_scale).1

  abbrev with_pll : Bus Clocks
  with_pll = (rcc_pll_enable hw with_config).1

  abbrev with_supply : Bus Clocks
  with_supply = (pwr_wait_voltage_scale_ready hw with_pll).1

  abbrev with_overdrive : Bus Clocks
  with_overdrive = (pwr_enable_overdrive hw with_supply).1

  abbrev with_buses : Bus Clocks
  with_buses = (rcc_bus_prescaler_config hw 0 5 4 with_overdrive).1

  hse_done : (rcc_hse_enable hw rcc_cr_hsebyp powered).0 ≡ ok
  hse_done =
      hse_enabled hw steady responds powered (clocked hw steady responds (fresh s t) off).facts.0

  pll_off_before : IsFact with_scale.regs (cr, rcc_cr_pllon, 0)
  pll_off_before =
      let hse = Ends-Stands _ _ with_hse hse_done (
        rcc_hse_enable-Ends hw steady U ((cr, rcc_cr_pllon, 0) ∷ []) (λ s h. tt) refl refl refl
          powered (standing _ powered (clocked hw steady responds (fresh s t) off).facts.1)) in
      (Ends-Stands _ _ with_scale (scale_set hw steady responds with_hse) (
        pwr_set_voltage_scale-Ends hw steady U ((cr, rcc_cr_pllon, 0) ∷ []) (λ s h. tt) refl refl
          with_hse (standing _ with_hse hse.facts.1.1))).facts.1.0

  pll_on_after : Holds pll_on with_pll.regs
  pll_on_after =
      (Ends-Stands _ _ with_pll (pll_enabled hw steady responds with_config) (
        rcc_pll_enable-Ends hw steady U [] (λ s h. tt) refl refl with_config
          (standing [] with_config tt))).facts

  pll_on_at_last : IsFact with_buses.regs (cr, rcc_cr_pllon, rcc_cr_pllon)
  pll_on_at_last =
      let supplied =
        Ends-Stands _ _ with_supply (scale_ready hw steady responds with_pll pll_on_after.0) (
          pwr_wait_voltage_scale_ready-Ends hw steady U pll_on (λ s h. tt) refl with_pll
            (standing pll_on with_pll pll_on_after)) in
      let driven = Ends-Stands _ _ with_overdrive (overdriven hw steady responds with_supply) (
        pwr_enable_overdrive-Ends hw steady U pll_on (λ s h. tt) refl refl refl with_supply
          supplied) in
      (Ends-Stands _ _ with_buses (prescaled hw steady responds with_overdrive) (
        rcc_bus_prescaler_config-Ends hw steady U pll_on (λ s h. tt) refl refl with_overdrive
          (standing pll_on with_overdrive driven.facts.1.1))).facts.1.0

  all_done : (bsp_clock_init hw (fresh s t)).0 ≡ ok
  unfolding bsp_clock_init
  all_done =
      rw
        (
          hse_done,
          scale_set hw steady responds with_hse,
          pll_configured hw steady responds with_scale pll_off_before,
          pll_enabled hw steady responds with_config,
          scale_ready hw steady responds with_pll pll_on_after.0,
          overdriven hw steady responds with_supply,
          prescaled hw steady responds with_overdrive,
          switched hw steady responds with_buses pll_on_at_last,
        )
        refl

-- Called with HSE and the PLL off, on hardware that leaves the configuration bits alone and
-- shows each ready flag at the first load after its cause, `bspClockInit` returns OK.
pub bsp_clock_init_finishes :
    (hw : Hw Clocks) (s : Clocks) (t : ℕ)
    → Steady hw
    → IsResponsive hw
    → IsFact s (cr, rcc_cr_hseon, 0)
    → IsFact s (cr, rcc_cr_pllon, 0)
    → (bsp_clock_init hw (fresh s t)).0 ≡ ok
bsp_clock_init_finishes hw s t steady responds hse_off pll_off =
    all_done hw steady responds s t (hse_off, (pll_off, tt))
