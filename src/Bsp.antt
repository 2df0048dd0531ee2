-- ===== src/Bsp.antt =====
-- bsp/src/bsp.c and the constants of bsp/inc/bsp.h.
pub mod Answers
pub mod Asked
pub mod Limits
pub mod Responsive
pub mod NoClock
pub mod Progress
pub mod Rates
pub mod Safety
pub mod Source
use stm32_rtos.Base.{ℕ, ◌*◌, ◌/◌}
use stm32_rtos.Status.{DriverStatus, ok}
use stm32_rtos.Bus.{Hw, M, pure, ◌>>=◌, ◌>>◌, if_ok}
use stm32_rtos.Clocks.{Clocks}
use stm32_rtos.Flash.{flash_enable_caches}
use stm32_rtos.Pwr.{pwr_set_voltage_scale, pwr_wait_voltage_scale_ready, pwr_enable_overdrive}
use stm32_rtos.Rcc.Gate.{rcc_pwr_clock_enable}
use stm32_rtos.Rcc.Oscillator.{rcc_hse_enable}
use stm32_rtos.Rcc.Pll.{rcc_pll_config, rcc_pll_enable}
use stm32_rtos.Rcc.Sysclk.{rcc_bus_prescaler_config, rcc_sysclk_switch}
use stm32_rtos.Reg.Pwr.{pwr_cr_vos_scale1}
use stm32_rtos.Reg.Rcc.{
  rcc_cr_hsebyp, rcc_pllcfgr_pllsrc_hse, rcc_pllcfgr_pllp_div2, rcc_cfgr_hpre_div1,
  rcc_cfgr_ppre_div4, rcc_cfgr_ppre_div2, rcc_cfgr_sysclk_pll,
}

abbrev pub bsp_hse_hz : ℕ
bsp_hse_hz = 8000000

abbrev pub bsp_pll_m : ℕ
bsp_pll_m = 8

abbrev pub bsp_pll_n : ℕ
bsp_pll_n = 360

abbrev pub bsp_pll_p_div : ℕ
bsp_pll_p_div = 2

abbrev pub bsp_flash_latency : ℕ
bsp_flash_latency = 5

abbrev pub bsp_sysclk_hz : ℕ
bsp_sysclk_hz = bsp_hse_hz / bsp_pll_m * bsp_pll_n / bsp_pll_p_div

abbrev pub bsp_hclk_hz : ℕ
bsp_hclk_hz = bsp_sysclk_hz

abbrev pub bsp_pclk1_hz : ℕ
bsp_pclk1_hz = bsp_hclk_hz / 4

abbrev pub bsp_pclk2_hz : ℕ
bsp_pclk2_hz = bsp_hclk_hz / 2

module _ (hw : Hw Clocks) where
  unfoldable pub bsp_clock_init : M Clocks DriverStatus
  bsp_clock_init = do
    rcc_pwr_clock_enable hw
    status ← rcc_hse_enable hw rcc_cr_hsebyp
    status ← if_ok status (pwr_set_voltage_scale hw pwr_cr_vos_scale1)
    status ←
        if_ok status
          (rcc_pll_config hw rcc_pllcfgr_pllsrc_hse bsp_pll_m bsp_pll_n rcc_pllcfgr_pllp_div2)
    status ← if_ok status (rcc_pll_enable hw)
    status ← if_ok status (pwr_wait_voltage_scale_ready hw)
    status ← if_ok status (pwr_enable_overdrive hw)
    status ←
        if_ok status
          (rcc_bus_prescaler_config hw rcc_cfgr_hpre_div1 rcc_cfgr_ppre_div4 rcc_cfgr_ppre_div2)
    status ← if_ok status (rcc_sysclk_switch hw rcc_cfgr_sysclk_pll bsp_flash_latency)
    if_ok status do flash_enable_caches hw; pure status
