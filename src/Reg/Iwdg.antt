-- ===== src/Reg/Iwdg.antt =====
-- device/inc/iwdg_reg.h.
use stm32_rtos.Base.{ℕ}
use stm32_rtos.Bits.{shl32}

pub record IwdgRegisters : Type 0 where
  pub kr : ℕ
  pub pr : ℕ
  pub rlr : ℕ
  pub sr : ℕ

abbrev pub iwdg_key_reload : ℕ
iwdg_key_reload = 0xaaaa

abbrev pub iwdg_key_enable_access : ℕ
iwdg_key_enable_access = 0x5555

abbrev pub iwdg_key_start : ℕ
iwdg_key_start = 0xcccc

abbrev pub iwdg_pr_pr_pos : ℕ
iwdg_pr_pr_pos = 0

abbrev pub iwdg_pr_div256 : ℕ
iwdg_pr_div256 = 0x6

abbrev pub iwdg_rlr_rl_pos : ℕ
iwdg_rlr_rl_pos = 0

abbrev pub iwdg_rlr_rl_msk : ℕ
iwdg_rlr_rl_msk = shl32 0xfff iwdg_rlr_rl_pos

abbrev pub iwdg_sr_pvu_pos : ℕ
iwdg_sr_pvu_pos = 0

abbrev pub iwdg_sr_pvu : ℕ
iwdg_sr_pvu = shl32 1 iwdg_sr_pvu_pos

abbrev pub iwdg_sr_rvu_pos : ℕ
iwdg_sr_rvu_pos = 1

abbrev pub iwdg_sr_rvu : ℕ
iwdg_sr_rvu = shl32 1 iwdg_sr_rvu_pos
