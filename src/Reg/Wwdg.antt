-- ===== src/Reg/Wwdg.antt =====
-- device/inc/wwdg_reg.h, and the limits of drivers/inc/wwdg.h.
use stm32_rtos.Base.{ℕ}
use stm32_rtos.Bits.{shl32}

pub record WwdgRegisters : Type 0 where
  pub cr : ℕ
  pub cfr : ℕ
  pub sr : ℕ

abbrev pub wwdg_cr_t_pos : ℕ
wwdg_cr_t_pos = 0

abbrev pub wwdg_cr_wdga_pos : ℕ
wwdg_cr_wdga_pos = 7

abbrev pub wwdg_cr_wdga : ℕ
wwdg_cr_wdga = shl32 1 wwdg_cr_wdga_pos

abbrev pub wwdg_cfr_w_pos : ℕ
wwdg_cfr_w_pos = 0

abbrev pub wwdg_cfr_wdgtb_pos : ℕ
wwdg_cfr_wdgtb_pos = 7

abbrev pub wwdg_cfr_wdgtb_div8 : ℕ
wwdg_cfr_wdgtb_div8 = 0x3

abbrev pub wwdg_cfr_ewi_pos : ℕ
wwdg_cfr_ewi_pos = 9

abbrev pub wwdg_cfr_ewi : ℕ
wwdg_cfr_ewi = shl32 1 wwdg_cfr_ewi_pos

abbrev pub wwdg_counter_min : ℕ
wwdg_counter_min = 0x40

abbrev pub wwdg_counter_max : ℕ
wwdg_counter_max = 0x7f
