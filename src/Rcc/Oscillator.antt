-- ===== src/Rcc/Oscillator.antt =====
-- drivers/src/rcc.c: the oscillators, and the poll loop on CR that the PLL shares.
pub mod Config
pub mod Guard
use stm32_rtos.Base.{ℕ, bit_and, bit_or, ◌==◌, ◌!=◌, ◌&&◌, if◌then◌else◌}
use stm32_rtos.Bits.{inv32, shr32}
use stm32_rtos.Status.{DriverStatus, ok, err_invalid_param, err_busy}
use stm32_rtos.Bus.{Hw, M, pure, ◌>>=◌, ◌>>◌, load, modify, wait, if_ok}
use stm32_rtos.Clocks.{Clocks, on_cr}
use stm32_rtos.Reg.Rcc.{
  rcc_cfgr_sws_msk, rcc_cfgr_sws_pos, rcc_cfgr_sysclk_hsi, rcc_cfgr_sysclk_hse, rcc_cfgr_sysclk_pll,
  rcc_pllcfgr_pllsrc, rcc_pllcfgr_pllsrc_hsi, rcc_pllcfgr_pllsrc_hse, rcc_cr_hsion, rcc_cr_hsirdy,
  rcc_cr_hseon, rcc_cr_hserdy, rcc_cr_hsebyp,
}

abbrev pub rcc_clock_ready_timeout_iterations : ℕ
rcc_clock_ready_timeout_iterations = 100000

-- The SYSCLK source in use, computed from what one load gave.
abbrev pub active_source : Clocks → ℕ
active_source s = shr32 (bit_and s.rcc.cfgr rcc_cfgr_sws_msk) rcc_cfgr_sws_pos

module _ (hw : Hw Clocks) where
  unfoldable pub rcc_active_sysclk_source : M Clocks ℕ
  rcc_active_sysclk_source = load hw active_source

  unfoldable pub rcc_oscillator_disable_guard : ℕ → ℕ → M Clocks DriverStatus
  unfolding rcc_active_sysclk_source
  rcc_oscillator_disable_guard sysclk_value pllsrc_value = do
    active ← rcc_active_sysclk_source
    pll_input ← load hw (λ s. bit_and s.rcc.pllcfgr rcc_pllcfgr_pllsrc)
    pure (
        if active == sysclk_value
        then err_busy
        else if active == rcc_cfgr_sysclk_pll && pll_input == pllsrc_value
        then err_busy
        else ok)

  unfoldable pub rcc_wait_cr_flag : ℕ → ℕ → M Clocks DriverStatus
  rcc_wait_cr_flag ready_bit expected =
      wait hw (λ s. bit_and s.rcc.cr ready_bit != expected) rcc_clock_ready_timeout_iterations

  unfoldable pub rcc_hsi_enable : M Clocks DriverStatus
  rcc_hsi_enable = do
    modify hw (on_cr (λ cr. bit_or cr rcc_cr_hsion))
    rcc_wait_cr_flag rcc_cr_hsirdy rcc_cr_hsirdy

  unfoldable pub rcc_hsi_disable : M Clocks DriverStatus
  rcc_hsi_disable = do
    status ← rcc_oscillator_disable_guard rcc_cfgr_sysclk_hsi rcc_pllcfgr_pllsrc_hsi
    if_ok status do
      modify hw (on_cr (λ cr. bit_and cr (inv32 rcc_cr_hsion)))
      rcc_wait_cr_flag rcc_cr_hsirdy 0

  unfoldable pub rcc_hse_enable : ℕ → M Clocks DriverStatus
  rcc_hse_enable bypass =
      if bypass != 0 && bypass != rcc_cr_hsebyp then pure err_invalid_param else do
        cr ← load hw (λ s. s.rcc.cr)
        if bit_and cr rcc_cr_hseon != 0 then pure err_busy else do
          modify hw (on_cr (λ cr. bit_or (bit_and cr (inv32 rcc_cr_hsebyp)) bypass))
          modify hw (on_cr (λ cr. bit_or cr rcc_cr_hseon))
          rcc_wait_cr_flag rcc_cr_hserdy rcc_cr_hserdy

  unfoldable pub rcc_hse_disable : M Clocks DriverStatus
  rcc_hse_disable = do
    status ← rcc_oscillator_disable_guard rcc_cfgr_sysclk_hse rcc_pllcfgr_pllsrc_hse
    if_ok status do
      modify hw (on_cr (λ cr. bit_and cr (inv32 rcc_cr_hseon)))
      rcc_wait_cr_flag rcc_cr_hserdy 0
