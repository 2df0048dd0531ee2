-- ===== src/Rcc/Pll.antt =====
-- drivers/src/rcc.c: the main PLL.
pub mod Config
pub mod Fields
use stm32_rtos.Base.{ℕ, bit_and, bit_or, ltb, ◌==◌, ◌!=◌, ◌&&◌, ◌||◌, if◌then◌else◌}
use stm32_rtos.Bits.{inv32, shl32, shr32}
use stm32_rtos.Status.{DriverStatus, ok, err_invalid_param, err_busy}
use stm32_rtos.Bus.{Hw, M, pure, ◌>>=◌, ◌>>◌, load, modify}
use stm32_rtos.Clocks.{Clocks, on_cr, on_pllcfgr}
use stm32_rtos.Rcc.Oscillator.{rcc_active_sysclk_source, rcc_wait_cr_flag}
use stm32_rtos.Reg.Rcc.{
  rcc_pllcfgr_pllsrc, rcc_pllcfgr_pllsrc_hsi, rcc_pllcfgr_pllsrc_hse, rcc_pllcfgr_pllm_msk,
  rcc_pllcfgr_pllm_pos, rcc_pllcfgr_plln_msk, rcc_pllcfgr_plln_pos, rcc_pllcfgr_pllp_msk,
  rcc_pllcfgr_pllp_pos, rcc_cr_pllon, rcc_cr_pllrdy, rcc_cfgr_sysclk_pll,
}

-- The bits that `rccPllConfig` replaces.
abbrev pub pll_mask : ℕ
pll_mask =
    bit_or (bit_or (bit_or rcc_pllcfgr_pllm_msk rcc_pllcfgr_plln_msk) rcc_pllcfgr_pllp_msk)
      rcc_pllcfgr_pllsrc

module _ (hw : Hw Clocks) where
  unfoldable pub rcc_pll_config : ℕ → ℕ → ℕ → ℕ → M Clocks DriverStatus
  rcc_pll_config source m n p =
      if source != rcc_pllcfgr_pllsrc_hsi && source != rcc_pllcfgr_pllsrc_hse
      then pure err_invalid_param
      else if ltb m 2 || ltb 63 m
      then pure err_invalid_param
      else if ltb n 50 || ltb 432 n
      then pure err_invalid_param
      else if ltb (shr32 rcc_pllcfgr_pllp_msk rcc_pllcfgr_pllp_pos) p
      then pure err_invalid_param
      else do
        cr ← load hw (λ s. s.rcc.cr)
        if bit_and cr rcc_cr_pllon != 0 then pure err_busy else do
          modify hw (
              on_pllcfgr (λ pllcfgr.
                bit_or
                  (bit_or
                    (bit_or
                      (bit_or (bit_and pllcfgr (inv32 pll_mask)) (shl32 m rcc_pllcfgr_pllm_pos))
                      (shl32 n rcc_pllcfgr_plln_pos))
                    (shl32 p rcc_pllcfgr_pllp_pos))
                  source))
          pure ok

  unfoldable pub rcc_pll_enable : M Clocks DriverStatus
  rcc_pll_enable = do
    modify hw (on_cr (λ cr. bit_or cr rcc_cr_pllon))
    rcc_wait_cr_flag hw rcc_cr_pllrdy rcc_cr_pllrdy

  unfoldable pub rcc_pll_disable : M Clocks DriverStatus
  rcc_pll_disable = do
    active ← rcc_active_sysclk_source hw
    if active == rcc_cfgr_sysclk_pll then pure err_busy else do
      modify hw (on_cr (λ cr. bit_and cr (inv32 rcc_cr_pllon)))
      rcc_wait_cr_flag hw rcc_cr_pllrdy 0
