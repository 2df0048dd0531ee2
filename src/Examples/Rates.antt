-- ===== src/Examples/Rates.antt =====
-- Bring-up to 180 MHz with the frequencies of the registers, and the console on top of it.
use stm32_rtos.Base.{◌≡◌, refl, All}
use stm32_rtos.Status.{ok}
use stm32_rtos.Bus.{Bus, fresh, wait, poll}
use stm32_rtos.Bsp.{
  bsp_clock_init, bsp_hse_hz, bsp_sysclk_hz, bsp_hclk_hz, bsp_pclk1_hz, bsp_pclk2_hz,
}
use stm32_rtos.Bsp.Limits.{OnHsi, bsp_clock_init-WithinLimits, bsp_clock_init_rates}
use stm32_rtos.Clocks.{Clocks}
use stm32_rtos.Examples.Reset.{after_reset}
use stm32_rtos.Examples.Tree.{tracks, tracks-Steady, tracks-Follows}
use stm32_rtos.Flash.{flash_set_latency, flash_enable_caches}
use stm32_rtos.Pwr.{
  pwr_set_voltage_scale, pwr_wait_voltage_scale_ready, pwr_enable_overdrive, pwr_wait_csr_flag,
}
use stm32_rtos.Rcc.Gate.{rcc_pwr_clock_enable}
use stm32_rtos.Rcc.Oscillator.{rcc_hse_enable, rcc_wait_cr_flag}
use stm32_rtos.Rcc.Pll.{rcc_pll_config, rcc_pll_enable}
use stm32_rtos.Rcc.Rates.{sysclk_hz, hclk_hz, pclk1_hz, pclk2_hz, WithinLimits}
use stm32_rtos.Rcc.Sysclk.{
  rcc_bus_prescaler_config, rcc_sysclk_switch, raise_latency, check_source_ready, request_source,
  lower_latency, rcc_validate_hpre, rcc_validate_ppre,
}
use stm32_rtos.Smoke.{actual_pclk1_hz}
use stm32_rtos.Smoke.Clock.{actual_pclk1_hz_agrees}

-- The flags of the regulator are up from the start.
abbrev pub supplied : Clocks
supplied = record after_reset { pwr = record { cr = 0xc000; csr = 0xffffffff } }

pub supplied-OnHsi : OnHsi supplied
supplied-OnHsi = record { asked = refl; in_use = refl; ahb_undivided = refl; apb1_undivided = refl }

abbrev brought_up : Bus Clocks
brought_up = (bsp_clock_init tracks (fresh supplied 0)).1

bring_up_ok : (bsp_clock_init tracks (fresh supplied 0)).0 ≡ ok
unfolding bsp_clock_init rcc_pwr_clock_enable rcc_hse_enable pwr_set_voltage_scale rcc_pll_config
    rcc_pll_enable pwr_wait_voltage_scale_ready pwr_enable_overdrive rcc_bus_prescaler_config
    rcc_sysclk_switch raise_latency check_source_ready request_source lower_latency
    rcc_validate_hpre rcc_validate_ppre flash_set_latency flash_enable_caches wait poll
    pwr_wait_csr_flag rcc_wait_cr_flag
bring_up_ok = refl

bsp_clock_init-WithinLimits_example :
    All (WithinLimits bsp_hse_hz) brought_up.log × WithinLimits bsp_hse_hz brought_up.regs
bsp_clock_init-WithinLimits_example =
    bsp_clock_init-WithinLimits tracks supplied 0 tracks-Steady tracks-Follows supplied-OnHsi

bsp_clock_init_rates_example :
    (sysclk_hz bsp_hse_hz brought_up.regs ≡ bsp_sysclk_hz)
    × (hclk_hz bsp_hse_hz brought_up.regs ≡ bsp_hclk_hz)
    × (pclk1_hz bsp_hse_hz brought_up.regs ≡ bsp_pclk1_hz)
    × (pclk2_hz bsp_hse_hz brought_up.regs ≡ bsp_pclk2_hz)
bsp_clock_init_rates_example =
    bsp_clock_init_rates tracks supplied 0 tracks-Steady tracks-Follows supplied-OnHsi bring_up_ok

actual_pclk1_hz_agrees_example :
    (actual_pclk1_hz tracks brought_up).0
    ≡ pclk1_hz bsp_hse_hz (tracks brought_up.time brought_up.regs)
actual_pclk1_hz_agrees_example =
    actual_pclk1_hz_agrees tracks supplied 0 tracks-Steady tracks-Follows supplied-OnHsi
