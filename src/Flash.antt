-- ===== src/Flash.antt =====
-- drivers/src/flash.c.
pub mod Config
use stm32_rtos.Base.{ℕ, bit_and, bit_or, ltb, ◌!=◌, if◌then◌else◌}
use stm32_rtos.Bits.{inv32, shl32, shr32}
use stm32_rtos.Status.{DriverStatus, ok, err_invalid_param, err_hw_fault}
use stm32_rtos.Bus.{Hw, M, pure, ◌>>=◌, ◌>>◌, load, modify}
use stm32_rtos.Clocks.{Clocks, on_acr}
use stm32_rtos.Reg.Flash.{
  flash_acr_latency_msk, flash_acr_latency_pos, flash_acr_prften, flash_acr_icen, flash_acr_dcen,
}

module _ (hw : Hw Clocks) where
  unfoldable pub flash_set_latency : ℕ → M Clocks DriverStatus
  flash_set_latency latency =
      if ltb (shr32 flash_acr_latency_msk flash_acr_latency_pos) latency
      then pure err_invalid_param
      else do
        modify hw (
            on_acr (λ acr.
              bit_or (bit_and acr (inv32 flash_acr_latency_msk))
                (shl32 latency flash_acr_latency_pos)))
        acr ← load hw (λ s. s.flash.acr)
        pure (
            if bit_and acr flash_acr_latency_msk != shl32 latency flash_acr_latency_pos
            then err_hw_fault
            else ok)

  unfoldable pub flash_enable_caches : M Clocks (Unit {0})
  flash_enable_caches =
      modify hw (
        on_acr (λ acr. bit_or acr (bit_or (bit_or flash_acr_prften flash_acr_icen) flash_acr_dcen)))
