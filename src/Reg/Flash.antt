-- ===== src/Reg/Flash.antt =====
-- device/inc/flash_reg.h.
use stm32_rtos.Base.{ℕ}
use stm32_rtos.Bits.{shl32}

pub record FlashRegisters : Type 0 where
  pub acr : ℕ
  pub keyr : ℕ
  pub optkeyr : ℕ
  pub sr : ℕ
  pub cr : ℕ
  pub optcr : ℕ
  pub optcr1 : ℕ

abbrev pub flash_acr_latency_pos : ℕ
flash_acr_latency_pos = 0

abbrev pub flash_acr_latency_msk : ℕ
flash_acr_latency_msk = shl32 0xf flash_acr_latency_pos

abbrev pub flash_acr_prften_pos : ℕ
flash_acr_prften_pos = 8

abbrev pub flash_acr_prften : ℕ
flash_acr_prften = shl32 1 flash_acr_prften_pos

abbrev pub flash_acr_icen_pos : ℕ
flash_acr_icen_pos = 9

abbrev pub flash_acr_icen : ℕ
flash_acr_icen = shl32 1 flash_acr_icen_pos

abbrev pub flash_acr_dcen_pos : ℕ
flash_acr_dcen_pos = 10

abbrev pub flash_acr_dcen : ℕ
flash_acr_dcen = shl32 1 flash_acr_dcen_pos
