-- ===== src/Pwr.antt =====
-- drivers/src/pwr.c.
pub mod Config
use stm32_rtos.Base.{ℕ, bit_and, bit_or, ◌==◌, ◌!=◌, ◌&&◌, if◌then◌else◌}
use stm32_rtos.Bits.{inv32, shl32}
use stm32_rtos.Status.{DriverStatus, ok, err_invalid_param}
use stm32_rtos.Bus.{Hw, M, pure, ◌>>=◌, ◌>>◌, modify, wait, if_ok}
use stm32_rtos.Clocks.{Clocks, on_pwr_cr}
use stm32_rtos.Reg.Pwr.{
  pwr_cr_vos_scale1, pwr_cr_vos_scale2, pwr_cr_vos_scale3, pwr_cr_vos_msk, pwr_cr_vos_pos,
  pwr_cr_oden, pwr_cr_odswen, pwr_csr_vosrdy, pwr_csr_odrdy, pwr_csr_odswrdy,
}

abbrev pub pwr_ready_timeout_iterations : ℕ
pwr_ready_timeout_iterations = 100000

module _ (hw : Hw Clocks) where
  unfoldable pub pwr_wait_csr_flag : ℕ → M Clocks DriverStatus
  pwr_wait_csr_flag flag = wait hw (λ s. bit_and s.pwr.csr flag == 0) pwr_ready_timeout_iterations

  unfoldable pub pwr_set_voltage_scale : ℕ → M Clocks DriverStatus
  pwr_set_voltage_scale vos =
      if vos != pwr_cr_vos_scale1 && vos != pwr_cr_vos_scale2 && vos != pwr_cr_vos_scale3
      then pure err_invalid_param
      else do
        modify hw (
            on_pwr_cr (λ cr. bit_or (bit_and cr (inv32 pwr_cr_vos_msk)) (shl32 vos pwr_cr_vos_pos)))
        pure ok

  unfoldable pub pwr_wait_voltage_scale_ready : M Clocks DriverStatus
  pwr_wait_voltage_scale_ready = pwr_wait_csr_flag pwr_csr_vosrdy

  unfoldable pub pwr_enable_overdrive : M Clocks DriverStatus
  pwr_enable_overdrive = do
    modify hw (on_pwr_cr (λ cr. bit_or cr pwr_cr_oden))
    status ← pwr_wait_csr_flag pwr_csr_odrdy
    if_ok status
        do modify hw (on_pwr_cr (λ cr. bit_or cr pwr_cr_odswen)); pwr_wait_csr_flag pwr_csr_odswrdy
