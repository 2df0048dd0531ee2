-- ===== src/Reg/Scb.antt =====
-- core/inc/scb_reg.h.
use stm32_rtos.Base.{ℕ}
use stm32_rtos.Bits.{shl32}

pub record ScbRegisters : Type 0 where
  pub cpuid : ℕ
  pub icsr : ℕ
  pub vtor : ℕ
  pub aircr : ℕ
  pub scr : ℕ
  pub ccr : ℕ
  pub shpr1 : ℕ
  pub shpr2 : ℕ
  pub shpr3 : ℕ
  pub shcsr : ℕ
  pub cfsr : ℕ
  pub hfsr : ℕ
  pub dfsr : ℕ
  pub mmfar : ℕ
  pub bfar : ℕ
  pub afsr : ℕ
  pub cpacr : ℕ

abbrev pub scb_icsr_vectactive_pos : ℕ
scb_icsr_vectactive_pos = 0

abbrev pub scb_icsr_vectactive_msk : ℕ
scb_icsr_vectactive_msk = shl32 0x1ff scb_icsr_vectactive_pos

abbrev pub scb_ccr_div_0_trp_pos : ℕ
scb_ccr_div_0_trp_pos = 4

abbrev pub scb_ccr_div_0_trp : ℕ
scb_ccr_div_0_trp = shl32 1 scb_ccr_div_0_trp_pos

abbrev pub scb_shcsr_memfaultena_pos : ℕ
scb_shcsr_memfaultena_pos = 16

abbrev pub scb_shcsr_memfaultena : ℕ
scb_shcsr_memfaultena = shl32 1 scb_shcsr_memfaultena_pos

abbrev pub scb_shcsr_busfaultena_pos : ℕ
scb_shcsr_busfaultena_pos = 17

abbrev pub scb_shcsr_busfaultena : ℕ
scb_shcsr_busfaultena = shl32 1 scb_shcsr_busfaultena_pos

abbrev pub scb_shcsr_usgfaultena_pos : ℕ
scb_shcsr_usgfaultena_pos = 18

abbrev pub scb_shcsr_usgfaultena : ℕ
scb_shcsr_usgfaultena = shl32 1 scb_shcsr_usgfaultena_pos

abbrev pub scb_cfsr_mstkerr_pos : ℕ
scb_cfsr_mstkerr_pos = 4

abbrev pub scb_cfsr_mstkerr : ℕ
scb_cfsr_mstkerr = shl32 1 scb_cfsr_mstkerr_pos

abbrev pub scb_cfsr_stkerr_pos : ℕ
scb_cfsr_stkerr_pos = 12

abbrev pub scb_cfsr_stkerr : ℕ
scb_cfsr_stkerr = shl32 1 scb_cfsr_stkerr_pos

abbrev pub scb_shpr1_pri_4_pos : ℕ
scb_shpr1_pri_4_pos = 0

abbrev pub scb_shpr1_pri_4_msk : ℕ
scb_shpr1_pri_4_msk = shl32 0xff scb_shpr1_pri_4_pos

abbrev pub scb_shpr1_pri_5_pos : ℕ
scb_shpr1_pri_5_pos = 8

abbrev pub scb_shpr1_pri_5_msk : ℕ
scb_shpr1_pri_5_msk = shl32 0xff scb_shpr1_pri_5_pos

abbrev pub scb_shpr1_pri_6_pos : ℕ
scb_shpr1_pri_6_pos = 16

abbrev pub scb_shpr1_pri_6_msk : ℕ
scb_shpr1_pri_6_msk = shl32 0xff scb_shpr1_pri_6_pos

abbrev pub scb_shpr2_pri_11_pos : ℕ
scb_shpr2_pri_11_pos = 24

abbrev pub scb_shpr2_pri_11_msk : ℕ
scb_shpr2_pri_11_msk = shl32 0xff scb_shpr2_pri_11_pos

abbrev pub scb_shpr3_pri_14_pos : ℕ
scb_shpr3_pri_14_pos = 16

abbrev pub scb_shpr3_pri_14_msk : ℕ
scb_shpr3_pri_14_msk = shl32 0xff scb_shpr3_pri_14_pos

abbrev pub scb_shpr3_pri_15_pos : ℕ
scb_shpr3_pri_15_pos = 24

abbrev pub scb_shpr3_pri_15_msk : ℕ
scb_shpr3_pri_15_msk = shl32 0xff scb_shpr3_pri_15_pos
