-- ===== src/Rcc/Sysclk.antt =====
-- drivers/src/rcc.c: the bus prescalers, and the switch of SYSCLK.
pub mod Config
pub mod Finish
pub mod InUse
pub mod Prescalers
pub mod Steps
use stm32_rtos.Base.{ℕ, Bool, bit_and, bit_or, ltb, leb, ◌==◌, ◌!=◌, ◌&&◌, if◌then◌else◌}
use stm32_rtos.Bits.{inv32, shl32, shr32}
use stm32_rtos.Status.{DriverStatus, ok, err_invalid_param, err_not_initialized, is_ok}
use stm32_rtos.Bus.{Hw, M, pure, ◌>>=◌, ◌>>◌, load, modify, wait, if_ok}
use stm32_rtos.Clocks.{Clocks, on_cfgr}
use stm32_rtos.Flash.{flash_set_latency}
use stm32_rtos.Rcc.Oscillator.{active_source, rcc_clock_ready_timeout_iterations}
use stm32_rtos.Reg.Flash.{flash_acr_latency_msk, flash_acr_latency_pos}
use stm32_rtos.Reg.Rcc.{
  rcc_cfgr_hpre_div1, rcc_cfgr_hpre_div2, rcc_cfgr_hpre_div4, rcc_cfgr_hpre_div8,
  rcc_cfgr_hpre_div16, rcc_cfgr_hpre_div64, rcc_cfgr_hpre_div128, rcc_cfgr_hpre_div256,
  rcc_cfgr_hpre_div512, rcc_cfgr_ppre_div1, rcc_cfgr_ppre_div2, rcc_cfgr_ppre_div4,
  rcc_cfgr_ppre_div8, rcc_cfgr_ppre_div16, rcc_cfgr_hpre_msk, rcc_cfgr_ppre1_msk,
  rcc_cfgr_ppre2_msk, rcc_cfgr_hpre_pos, rcc_cfgr_ppre1_pos, rcc_cfgr_ppre2_pos,
  rcc_cfgr_sysclk_hsi, rcc_cfgr_sysclk_hse, rcc_cfgr_sysclk_pll, rcc_cr_hsirdy, rcc_cr_hserdy,
  rcc_cr_pllrdy, rcc_cfgr_sw_msk, rcc_cfgr_sw_pos,
}

unfoldable pub rcc_validate_hpre : ℕ → DriverStatus
rcc_validate_hpre hpre =
    if hpre != rcc_cfgr_hpre_div1
      && hpre != rcc_cfgr_hpre_div2
      && hpre != rcc_cfgr_hpre_div4
      && hpre != rcc_cfgr_hpre_div8
      && hpre != rcc_cfgr_hpre_div16
      && hpre != rcc_cfgr_hpre_div64
      && hpre != rcc_cfgr_hpre_div128
      && hpre != rcc_cfgr_hpre_div256
      && hpre != rcc_cfgr_hpre_div512
    then err_invalid_param
    else ok

unfoldable pub rcc_validate_ppre : ℕ → DriverStatus
rcc_validate_ppre ppre =
    if ppre != rcc_cfgr_ppre_div1
      && ppre != rcc_cfgr_ppre_div2
      && ppre != rcc_cfgr_ppre_div4
      && ppre != rcc_cfgr_ppre_div8
      && ppre != rcc_cfgr_ppre_div16
    then err_invalid_param
    else ok

-- The bits that `rccBusPrescalerConfig` replaces.
abbrev pub prescaler_mask : ℕ
prescaler_mask = bit_or (bit_or rcc_cfgr_hpre_msk rcc_cfgr_ppre1_msk) rcc_cfgr_ppre2_msk

-- The ready flag of a SYSCLK source.
abbrev pub ready_bit_of : ℕ → ℕ
ready_bit_of source =
    if source == rcc_cfgr_sysclk_hsi
    then rcc_cr_hsirdy
    else if source == rcc_cfgr_sysclk_hse
    then rcc_cr_hserdy
    else rcc_cr_pllrdy

module _ (hw : Hw Clocks) where
  unfoldable pub rcc_bus_prescaler_config : ℕ → ℕ → ℕ → M Clocks DriverStatus
  unfolding rcc_validate_hpre rcc_validate_ppre
  rcc_bus_prescaler_config hpre ppre1 ppre2 = do
    status ← pure (rcc_validate_hpre hpre)
    status ← if_ok status (pure (rcc_validate_ppre ppre1))
    status ← if_ok status (pure (rcc_validate_ppre ppre2))
    if_ok status do
      modify hw (
          on_cfgr (λ cfgr.
            bit_or
              (bit_or (bit_or (bit_and cfgr (inv32 prescaler_mask)) (shl32 hpre rcc_cfgr_hpre_pos))
                (shl32 ppre1 rcc_cfgr_ppre1_pos))
              (shl32 ppre2 rcc_cfgr_ppre2_pos)))
      pure status

  -- The first check of `rccSysclkSwitch`, and the latency that goes in before the switch.
  unfoldable pub raise_latency : ℕ → ℕ → ℕ → M Clocks DriverStatus
  raise_latency source latency current_latency =
      let status =
        if source != rcc_cfgr_sysclk_hsi
          && source != rcc_cfgr_sysclk_hse
          && source != rcc_cfgr_sysclk_pll
        then err_invalid_param
        else ok in
      if is_ok status && ltb current_latency latency
      then flash_set_latency hw latency
      else pure status

  -- The block of `rccSysclkSwitch` that refuses a source which is not ready.
  unfoldable pub check_source_ready : ℕ → M Clocks DriverStatus
  check_source_ready source = do
    cr ← load hw (λ s. s.rcc.cr)
    pure (if bit_and cr (ready_bit_of source) == 0 then err_not_initialized else ok)

  -- The block of `rccSysclkSwitch` that requests the source in CFGR.SW and waits for CFGR.SWS.
  unfoldable pub request_source : ℕ → M Clocks DriverStatus
  request_source source = do
    modify hw (
        on_cfgr
          (λ cfgr. bit_or (bit_and cfgr (inv32 rcc_cfgr_sw_msk)) (shl32 source rcc_cfgr_sw_pos)))
    wait hw (λ s. active_source s != source) rcc_clock_ready_timeout_iterations

  -- The latency that is lowered only after the switch.
  unfoldable pub lower_latency : ℕ → ℕ → DriverStatus → M Clocks DriverStatus
  lower_latency latency current_latency status =
      if is_ok status && leb latency current_latency
      then flash_set_latency hw latency
      else pure status

  unfoldable pub rcc_sysclk_switch : ℕ → ℕ → M Clocks DriverStatus
  rcc_sysclk_switch source latency = do
    acr ← load hw (λ s. s.flash.acr)
    let current_latency = shr32 (bit_and acr flash_acr_latency_msk) flash_acr_latency_pos
    status ← raise_latency source latency current_latency
    status ← if_ok status (check_source_ready source)
    status ← if_ok status (request_source source)
    lower_latency latency current_latency status
