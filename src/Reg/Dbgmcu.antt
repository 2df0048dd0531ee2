-- ===== src/Reg/Dbgmcu.antt =====
-- device/inc/dbgmcu_reg.h.
use stm32_rtos.Base.{ℕ}
use stm32_rtos.Bits.{shl32}

pub record DbgmcuRegisters : Type 0 where
  pub idcode : ℕ
  pub cr : ℕ
  pub apb1_fz : ℕ
  pub apb2_fz : ℕ

abbrev pub dbgmcu_apb1_fz_dbg_wwdg_stop_pos : ℕ
dbgmcu_apb1_fz_dbg_wwdg_stop_pos = 11

abbrev pub dbgmcu_apb1_fz_dbg_wwdg_stop : ℕ
dbgmcu_apb1_fz_dbg_wwdg_stop = shl32 1 dbgmcu_apb1_fz_dbg_wwdg_stop_pos

abbrev pub dbgmcu_apb1_fz_dbg_iwdg_stop_pos : ℕ
dbgmcu_apb1_fz_dbg_iwdg_stop_pos = 12

abbrev pub dbgmcu_apb1_fz_dbg_iwdg_stop : ℕ
dbgmcu_apb1_fz_dbg_iwdg_stop = shl32 1 dbgmcu_apb1_fz_dbg_iwdg_stop_pos
