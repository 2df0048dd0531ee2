-- ===== src/Reg/Systick.antt =====
-- core/inc/systick_reg.h.
use stm32_rtos.Base.{ℕ}
use stm32_rtos.Bits.{shl32}

pub record SysTickRegisters : Type 0 where
  pub ctrl : ℕ
  pub load : ℕ
  pub val : ℕ
  pub calib : ℕ

abbrev pub systick_ctrl_enable_pos : ℕ
systick_ctrl_enable_pos = 0

abbrev pub systick_ctrl_enable : ℕ
systick_ctrl_enable = shl32 1 systick_ctrl_enable_pos

abbrev pub systick_ctrl_tickint_pos : ℕ
systick_ctrl_tickint_pos = 1

abbrev pub systick_ctrl_tickint : ℕ
systick_ctrl_tickint = shl32 1 systick_ctrl_tickint_pos

abbrev pub systick_ctrl_clksource_pos : ℕ
systick_ctrl_clksource_pos = 2

abbrev pub systick_ctrl_clksource : ℕ
systick_ctrl_clksource = shl32 1 systick_ctrl_clksource_pos

abbrev pub systick_load_reload_pos : ℕ
systick_load_reload_pos = 0

abbrev pub systick_load_reload_msk : ℕ
systick_load_reload_msk = shl32 0xffffff systick_load_reload_pos
