-- ===== src/Rcc/Rates.antt =====
-- The frequencies that RCC, PWR and FLASH are set up for, computed from their registers as the
-- tables of drivers/inc/rcc.h, drivers/inc/pwr.h and bsp/inc/bsp.h have them. This is no code of
-- the repository: it is what the clock drivers are measured against.
use stm32_rtos.Base.{ℕ, ◌+◌, ◌-◌, ◌*◌, ◌/◌, ◌^◌, ◌≤◌, bit_and, ltb, ◌==◌, ◌&&◌, if◌then◌else◌}
use stm32_rtos.Bits.{shr32}
use stm32_rtos.Clocks.{Clocks}
use stm32_rtos.Rcc.Oscillator.{active_source}
use stm32_rtos.Reg.Flash.{flash_acr_latency_msk}
use stm32_rtos.Reg.Pwr.{
  pwr_cr_vos_msk, pwr_cr_vos_pos, pwr_cr_vos_scale1, pwr_cr_vos_scale2, pwr_cr_oden, pwr_cr_odswen,
}
use stm32_rtos.Reg.Rcc.{
  rcc_pllcfgr_pllm_msk, rcc_pllcfgr_pllm_pos, rcc_pllcfgr_plln_msk, rcc_pllcfgr_plln_pos,
  rcc_pllcfgr_pllp_msk, rcc_pllcfgr_pllp_pos, rcc_pllcfgr_pllsrc, rcc_cfgr_hpre_msk,
  rcc_cfgr_hpre_pos, rcc_cfgr_ppre1_msk, rcc_cfgr_ppre1_pos, rcc_cfgr_ppre2_msk, rcc_cfgr_ppre2_pos,
}

abbrev pub hsi_hz : ℕ
hsi_hz = 16000000

-- `RCC_CFGR_HPRE_DIV*`: the codes 8 to 11 are /2 to /16, and 12 to 15 are /64 to /512.
abbrev pub ahb_divisor : ℕ → ℕ
ahb_divisor code = if ltb code 8 then 1 else if ltb code 12 then 2 ^ (code - 7) else 2 ^ (code - 6)

-- `RCC_CFGR_PPRE_DIV*`: the codes 4 to 7 are /2 to /16.
abbrev pub apb_divisor : ℕ → ℕ
apb_divisor code = if ltb code 4 then 1 else 2 ^ (code - 3)

-- `RCC_PLLCFGR_PLLP_DIV*`: the codes 0 to 3 are /2 to /8.
abbrev pub pllp_divisor : ℕ → ℕ
pllp_divisor code = 2 * (code + 1)

-- The board's HSE frequency.
module _ (hse_hz : ℕ) where
  abbrev pub pll_input_hz : ℕ → ℕ
  pll_input_hz pllcfgr = if bit_and pllcfgr rcc_pllcfgr_pllsrc == 0 then hsi_hz else hse_hz

  -- What the PLL gives for a value of PLLCFGR.
  abbrev pub pll_hz : ℕ → ℕ
  pll_hz pllcfgr =
      pll_input_hz pllcfgr
      / shr32 (bit_and pllcfgr rcc_pllcfgr_pllm_msk) rcc_pllcfgr_pllm_pos
      * shr32 (bit_and pllcfgr rcc_pllcfgr_plln_msk) rcc_pllcfgr_plln_pos
      / pllp_divisor (shr32 (bit_and pllcfgr rcc_pllcfgr_pllp_msk) rcc_pllcfgr_pllp_pos)

  -- SYSCLK, from the source that CFGR.SWS shows.
  abbrev pub sysclk_hz : Clocks → ℕ
  sysclk_hz s =
      if active_source s == 0
      then hsi_hz
      else if active_source s == 1
      then hse_hz
      else pll_hz s.rcc.pllcfgr

  abbrev pub hclk_hz : Clocks → ℕ
  hclk_hz s =
      sysclk_hz s / ahb_divisor (shr32 (bit_and s.rcc.cfgr rcc_cfgr_hpre_msk) rcc_cfgr_hpre_pos)

  abbrev pub pclk1_hz : Clocks → ℕ
  pclk1_hz s =
      hclk_hz s / apb_divisor (shr32 (bit_and s.rcc.cfgr rcc_cfgr_ppre1_msk) rcc_cfgr_ppre1_pos)

  abbrev pub pclk2_hz : Clocks → ℕ
  pclk2_hz s =
      hclk_hz s / apb_divisor (shr32 (bit_and s.rcc.cfgr rcc_cfgr_ppre2_msk) rcc_cfgr_ppre2_pos)

-- The fastest SYSCLK of the regulator's scale, with over-drive switched to and without.
abbrev pub supply_hz : Clocks → ℕ
supply_hz s =
    let scale = shr32 (bit_and s.pwr.cr pwr_cr_vos_msk) pwr_cr_vos_pos in
    let driven =
      bit_and s.pwr.cr pwr_cr_oden == pwr_cr_oden
      && bit_and s.pwr.cr pwr_cr_odswen == pwr_cr_odswen in
    if scale == pwr_cr_vos_scale1
    then (if driven then 180000000 else 168000000)
    else if scale == pwr_cr_vos_scale2
    then (if driven then 168000000 else 144000000)
    else 120000000

-- The fastest HCLK of the flash latency at 2.7 V to 3.6 V: 30 MHz more with each wait state.
abbrev pub flash_hz : Clocks → ℕ
flash_hz s = 30000000 * (bit_and s.flash.acr flash_acr_latency_msk + 1)

-- SYSCLK is no faster than the regulator allows, HCLK no faster than the flash is read, and the
-- buses no faster than their limits.
pub record WithinLimits (hse_hz : ℕ) (s : Clocks) : Type 0 where
  pub supplied : sysclk_hz hse_hz s ≤ supply_hz s
  pub read_in_time : hclk_hz hse_hz s ≤ flash_hz s
  pub apb1_slow : pclk1_hz hse_hz s ≤ 45000000
  pub apb2_slow : pclk2_hz hse_hz s ≤ 90000000
