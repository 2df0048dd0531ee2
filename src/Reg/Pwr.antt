-- ===== src/Reg/Pwr.antt =====
-- device/inc/pwr_reg.h.
use stm32_rtos.Base.{ℕ}
use stm32_rtos.Bits.{shl32}

pub record PwrRegisters : Type 0 where
  pub cr : ℕ
  pub csr : ℕ

abbrev pub pwr_cr_vos_pos : ℕ
pwr_cr_vos_pos = 14

abbrev pub pwr_cr_vos_msk : ℕ
pwr_cr_vos_msk = shl32 0x3 pwr_cr_vos_pos

abbrev pub pwr_cr_oden_pos : ℕ
pwr_cr_oden_pos = 16

abbrev pub pwr_cr_oden : ℕ
pwr_cr_oden = shl32 1 pwr_cr_oden_pos

abbrev pub pwr_cr_odswen_pos : ℕ
pwr_cr_odswen_pos = 17

abbrev pub pwr_cr_odswen : ℕ
pwr_cr_odswen = shl32 1 pwr_cr_odswen_pos

abbrev pub pwr_cr_vos_scale3 : ℕ
pwr_cr_vos_scale3 = 0x1

abbrev pub pwr_cr_vos_scale2 : ℕ
pwr_cr_vos_scale2 = 0x2

abbrev pub pwr_cr_vos_scale1 : ℕ
pwr_cr_vos_scale1 = 0x3

abbrev pub pwr_csr_vosrdy_pos : ℕ
pwr_csr_vosrdy_pos = 14

abbrev pub pwr_csr_vosrdy : ℕ
pwr_csr_vosrdy = shl32 1 pwr_csr_vosrdy_pos

abbrev pub pwr_csr_odrdy_pos : ℕ
pwr_csr_odrdy_pos = 16

abbrev pub pwr_csr_odrdy : ℕ
pwr_csr_odrdy = shl32 1 pwr_csr_odrdy_pos

abbrev pub pwr_csr_odswrdy_pos : ℕ
pwr_csr_odswrdy_pos = 17

abbrev pub pwr_csr_odswrdy : ℕ
pwr_csr_odswrdy = shl32 1 pwr_csr_odswrdy_pos
